-- ===== src/Udp/Buffer.antt =====
-- The read buffer: `feed_packet` leaves it, or appends a datagram that is one frame and that fits.
use usmp_python.Prelude.{
  ℕ, ◌+◌, ◌≤◌, ◌≡◌, refl, true, false, some, List, [], ◌∷◌, ◌++◌, ◌⊎◌, inl, inr, arith, length,
  length-append, ltb, Bool-cases, ap, ◌∙◌,
}
use usmp_python.Types.{Bytes}
use usmp_python.Crypto.{Primitives}
use usmp_python.Udp.Stream.{
  Stream, max_read_buffer, feed_utack, accept_datagram, feed_frame, holds_frame, is_utack,
  feed_packet, feed_packets, byte_at, word_at, is_handshake_type, is_duplicate_after, is_too_old,
  build_utack,
}

module _ (p : Primitives) where
  -- A datagram is kept out of the buffer, or it is one frame, it joins the others and its type and
  -- sequence number are acknowledged.
  pub record Buffered (bs : Bytes) (type_ seq : ℕ) (s s' : Stream) : Type 0 where
    pub frame : holds_frame bs ≡ true
    pub grown : s'.read_buffer ≡ s.read_buffer ++ bs
    pub fits : length s.read_buffer + length bs ≤ max_read_buffer
    pub acknowledged : s'.sent ≡ s.sent ++ (build_utack p type_ seq s ∷ [])

  feed_utack-read_buffer :
      (bs : Bytes) (s : Stream) → (feed_utack p bs s).read_buffer ≡ s.read_buffer
  unfolding feed_utack
  feed_utack-read_buffer bs s = ground arith

  accept_datagram-read_buffer :
      (bs : Bytes) (type_ seq : ℕ) (s : Stream)
      → holds_frame bs ≡ true
      → ((accept_datagram p bs type_ seq s).read_buffer ≡ s.read_buffer)
        ⊎ Buffered bs type_ seq s (accept_datagram p bs type_ seq s)
  unfolding accept_datagram
  accept_datagram-read_buffer bs type_ seq s h =
      elim (Bool-cases (ltb max_read_buffer (length s.read_buffer + length bs))) [
        | inl full ↦ rw full (inl refl)
        | inr fits ↦
            rw fits
              (inr (record { frame = h; grown = refl; fits = ground arith; acknowledged = refl }))
      ]

  -- The type that was noted plays no part in it.
  retyped :
      (bs : Bytes) (type_ seq : ℕ) (s s' : Stream)
      → ((s'.read_buffer ≡ s.read_buffer)
          ⊎ Buffered bs type_ seq (record s { last_rx_type = some type_ }) s')
      → (s'.read_buffer ≡ s.read_buffer) ⊎ Buffered bs type_ seq s s'
  unfolding build_utack
  retyped bs type_ seq s s' (inl same) = inl same
  retyped bs type_ seq s s' (inr b) =
      inr
        (record { frame = b.frame; grown = b.grown; fits = b.fits; acknowledged = b.acknowledged })

  feed_frame-read_buffer :
      (bs : Bytes) (type_ seq : ℕ) (s : Stream)
      → holds_frame bs ≡ true
      → ((feed_frame p bs type_ seq s).read_buffer ≡ s.read_buffer)
        ⊎ Buffered bs type_ seq s (feed_frame p bs type_ seq s)
  unfolding feed_frame
  feed_frame-read_buffer bs type_ seq s h = elim (Bool-cases (is_handshake_type type_)) [
    | inl shaking ↦ elim (Bool-cases (is_duplicate_after s.is_server type_ s.last_rx_type)) [
      | inl again ↦ rw (shaking, again) (inl refl)
      | inr first ↦
          rw (shaking, first)
            (retyped bs type_ seq s _ (accept_datagram-read_buffer bs type_ seq _ h))
    ]
    | inr session ↦ elim (Bool-cases (is_too_old seq s.last_rx_seq)) [
      | inl old ↦ rw (session, old) (inl refl)
      | inr new ↦ rw (session, new) (accept_datagram-read_buffer bs type_ seq _ h)
    ]
  ]

  -- What a datagram is taken for, if for anything.
  pub feed_packet-cases :
      (bs : Bytes) (s : Stream)
      → (feed_packet p bs s ≡ s)
        ⊎ ((s.closed ≡ false) × (is_utack bs ≡ true) × (feed_packet p bs s ≡ feed_utack p bs s))
        ⊎ ((s.closed ≡ false)
            × (is_utack bs ≡ false)
            × (holds_frame bs ≡ true)
            × (feed_packet p bs s ≡ feed_frame p bs (byte_at bs 3) (word_at bs 4) s))
  unfolding feed_packet
  feed_packet-cases bs s = elim (Bool-cases s.closed) [
    | inl over ↦ inl (simp over)
    | inr opened ↦ elim (Bool-cases (is_utack bs)) [
      | inl ack ↦ inr (inl (opened, ack, simp (opened, ack)))
      | inr other ↦ elim (Bool-cases (holds_frame bs)) [
        | inl frame ↦ inr (inr (opened, other, frame, simp (opened, other, frame)))
        | inr bad ↦ inl (simp (opened, other, bad))
      ]
    ]
  ]

  pub feed_packet-read_buffer :
      (bs : Bytes) (s : Stream)
      → ((feed_packet p bs s).read_buffer ≡ s.read_buffer)
        ⊎ Buffered bs (byte_at bs 3) (word_at bs 4) s (feed_packet p bs s)
  feed_packet-read_buffer bs s = elim (feed_packet-cases bs s) [
    | inl same ↦ inl (ap (λ t. t.read_buffer) same)
    | inr (inl (opened, ack, e)) ↦ inl (ap (λ t. t.read_buffer) e ∙ feed_utack-read_buffer bs s)
    | inr (inr (opened, other, frame, e)) ↦
        rw e (feed_frame-read_buffer bs (byte_at bs 3) (word_at bs 4) s frame)
  ]

  feed_packet-bounded :
      (bs : Bytes) (s : Stream)
      → length s.read_buffer ≤ max_read_buffer
      → length (feed_packet p bs s).read_buffer ≤ max_read_buffer
  feed_packet-bounded bs s h = elim (feed_packet-read_buffer bs s) [
    | inl same ↦ rw same h
    | inr b ↦ omega (arith, b.fits, ap length b.grown ∙ length-append s.read_buffer bs)
  ]

  -- However many datagrams arrive, and whatever they hold, the read buffer never holds more than
  -- 4096 bytes, if it did not before.
  pub feed_packets-bounded :
      (ds : List Bytes) (s : Stream)
      → length s.read_buffer ≤ max_read_buffer
      → length (feed_packets p ds s).read_buffer ≤ max_read_buffer
  unfolding feed_packets
  feed_packets-bounded [] s h = h
  feed_packets-bounded (bs ∷ later) s h =
      feed_packets-bounded later (feed_packet p bs s) (feed_packet-bounded bs s h)
