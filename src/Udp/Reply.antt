-- ===== src/Udp/Reply.antt =====
-- The acknowledgement that a peer builds is one that the sender accepts.
use usmp_python.Prelude.{
  ℕ, ◌≤◌, ◌<◌, ◌≡◌, refl, true, false, some, [], ◌++◌, ◌⊎◌, inl, inr, arith, length, ap, ◌∙◌, sym,
  leb, take-all, length-take, bytes_eq_refl, Bool-cases,
}
use usmp_python.Types.{Bytes}
use usmp_python.Bytes.Laws.{le32_value}
use usmp_python.Crypto.{Primitives}
use usmp_python.Crypto.Laws.{IsSized}
use usmp_python.Udp.Stream.{
  Stream, utack_mac, utack_header, build_utack, mac_valid, is_utack, feed_utack, feed_packet,
  byte_at, word_at,
}

-- The peer signs with the key that the sender checks by, if the type calls for a signature.
pub record Paired (type_ : ℕ) (sender peer : Stream) : Type 0 where
  pub key : Bytes
  pub checks : 5 ≤ type_ → sender.tx_key ≡ some key
  pub signs : 5 ≤ type_ → peer.rx_key ≡ some key

module _ (p : Primitives) (sized : IsSized p) where
  length-utack_mac : (key header : Bytes) → length (utack_mac p key header) ≡ 8
  unfolding utack_mac
  length-utack_mac key header =
      omega (arith, length-take 8 (p.hmac_sha256 key header), sized.mac_length key header)

  -- Any bytes behind a header of a UTACK.
  module _ (type_ seq : ℕ) (tail : Bytes) where
    abbrev marked : Bytes
    marked = utack_header type_ seq ++ tail

    marked-is_utack : is_utack marked ≡ true
    marked-is_utack = ground arith

  mac_valid-own :
      (type_ seq : ℕ) (key : Bytes)
      → mac_valid p (some key) (utack_header type_ seq ++ utack_mac p key (utack_header type_ seq))
        ≡ true
  mac_valid-own type_ seq key = simp (
    length-utack_mac key (utack_header type_ seq),
    take-all 8 (utack_mac p key (utack_header type_ seq))
        (omega (arith, length-utack_mac key (utack_header type_ seq))),
    bytes_eq_refl (utack_mac p key (utack_header type_ seq)),
  )

  feed_utack-accepts :
      (bs : Bytes) (s : Stream)
      → (leb 5 (byte_at bs 2) ≡ false) ⊎ (mac_valid p s.tx_key bs ≡ true)
      → s.pending_send_seq ≡ some (word_at bs 3)
      → s.pending_send_type ≡ some (byte_at bs 2)
      → (feed_utack p bs s).acked ≡ true
  unfolding feed_utack
  feed_utack-accepts bs s (inl early) hs ht = ground arith
  feed_utack-accepts bs s (inr valid) hs ht = ground arith

  pub built :
      (type_ seq : ℕ) (key : Bytes) (peer : Stream)
      → (5 ≤ type_ → peer.rx_key ≡ some key)
      → ((leb 5 type_ ≡ false) × (build_utack p type_ seq peer ≡ utack_header type_ seq ++ []))
        ⊎ ((leb 5 type_ ≡ true)
            × (build_utack p type_ seq peer
                ≡ utack_header type_ seq ++ utack_mac p key (utack_header type_ seq)))
  unfolding build_utack
  built type_ seq key peer h = elim (Bool-cases (leb 5 type_)) [
    | inl late ↦ inr (late, rw (late, h (ground arith)) refl)
    | inr early ↦ inl (early, rw early refl)
  ]

  pub opened_utack :
      (type_ seq : ℕ) (tail : Bytes) (s : Stream)
      → s.closed ≡ false
      → feed_packet p (utack_header type_ seq ++ tail) s
        ≡ feed_utack p (utack_header type_ seq ++ tail) s
  unfolding feed_packet
  opened_utack type_ seq tail s h = simp (h, marked-is_utack type_ seq tail)

  -- The datagram that a peer builds in acknowledgement of a frame sets the event of the sender that
  -- waits for just this frame, when the peer signs with the key that the sender checks by.
  pub feed_packet-build_utack :
      (type_ seq : ℕ) (s peer : Stream)
      → seq < 4294967296
      → Paired type_ s peer
      → s.closed ≡ false
      → s.pending_send_type ≡ some type_
      → s.pending_send_seq ≡ some seq
      → (feed_packet p (build_utack p type_ seq peer) s).acked ≡ true
  feed_packet-build_utack type_ seq s peer h k opened ht hs =
      elim (built type_ seq k.key peer k.signs) [
        | inl (early, e) ↦
            rw (e, opened_utack type_ seq [] s opened)
              (feed_utack-accepts (utack_header type_ seq ++ []) s (inl early) named ht)
        | inr (late, e) ↦
            let mac = utack_mac p k.key (utack_header type_ seq) in
            rw (e, opened_utack type_ seq mac s opened)
              (feed_utack-accepts (utack_header type_ seq ++ mac) s
                (inr (rw (k.checks (ground arith)) (mac_valid-own type_ seq k.key))) named ht)
      ]
    where
      named : s.pending_send_seq ≡ some (word_at (utack_header type_ seq) 3)
      named = hs ∙ ap some (sym (le32_value seq h))
