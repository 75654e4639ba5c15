-- ===== src/Udp/Lost.antt =====
-- Frames that are acknowledged and not kept: one of the handshake that comes while the read buffer
-- is full, and one of a session after a rekey.
use usmp_python.Prelude.{
  le→leb, ◌≤◌, ℕ, ◌+◌, ◌<◌, ◌≡◌, refl, true, false, some, [], ◌∷◌, ◌++◌, length, ap, ◌∙◌, lt→ltb,
  eq→==,
}
use usmp_python.Types.{Bytes}
use usmp_python.Crypto.{Primitives}
use usmp_python.Udp.Stream.{
  Stream, max_read_buffer, sendto, build_utack, feed_packet, feed_frame, accept_datagram, is_utack,
  holds_frame, byte_at, word_at, is_handshake_type, is_duplicate_after, set_session_keys,
}

module _ (p : Primitives) where
  full_dropped :
      (bs : Bytes) (type_ seq : ℕ) (s : Stream)
      → max_read_buffer < length s.read_buffer + length bs
      → is_handshake_type type_ ≡ true
      → is_duplicate_after s.is_server type_ s.last_rx_type ≡ false
      → feed_frame p bs type_ seq s ≡ record s { last_rx_type = some type_ }
  unfolding feed_frame accept_datagram
  full_dropped bs type_ seq s full shakes new =
      simp (shakes, new, lt→ltb max_read_buffer (length s.read_buffer + length bs) full)

  seen_again :
      (bs : Bytes) (type_ seq : ℕ) (s : Stream)
      → is_handshake_type type_ ≡ true
      → s.last_rx_type ≡ some type_
      → feed_frame p bs type_ seq s ≡ sendto (build_utack p type_ seq s) s
  unfolding feed_frame
  seen_again bs type_ seq s shakes seen = simp (shakes, seen, eq→== type_ type_ refl)

  pub fed :
      (bs : Bytes) (s : Stream)
      → s.closed ≡ false
      → is_utack bs ≡ false
      → holds_frame bs ≡ true
      → feed_packet p bs s ≡ feed_frame p bs (byte_at bs 3) (word_at bs 4) s
  unfolding feed_packet
  fed bs s opened plain frame = simp (opened, plain, frame)

  -- A frame of the handshake that is not a duplicate and finds the read buffer of an open stream too
  -- full is dropped without an acknowledgement; but when the peer sends it again, it is acknowledged
  -- as a duplicate and the buffer still does not have it.
  pub feed_packet-full :
      (bs : Bytes) (s : Stream)
      → s.closed ≡ false
      → is_utack bs ≡ false
      → holds_frame bs ≡ true
      → is_handshake_type (byte_at bs 3) ≡ true
      → is_duplicate_after s.is_server (byte_at bs 3) s.last_rx_type ≡ false
      → max_read_buffer < length s.read_buffer + length bs
      → ((feed_packet p bs s).sent ≡ s.sent)
        × ((feed_packet p bs (feed_packet p bs s)).read_buffer ≡ s.read_buffer)
        × ((feed_packet p bs (feed_packet p bs s)).sent
            ≡ s.sent ++ (build_utack p (byte_at bs 3) (word_at bs 4) s ∷ []))
  unfolding build_utack
  feed_packet-full bs s opened plain frame shakes new full =
      let t = record s { last_rx_type = some (byte_at bs 3) } in
      let once : feed_packet p bs s ≡ t =
        fed bs s opened plain frame
        ∙ full_dropped bs (byte_at bs 3) (word_at bs 4) s full shakes new in
      let twice : feed_packet p bs (feed_packet p bs s)
          ≡ sendto (build_utack p (byte_at bs 3) (word_at bs 4) t) t =
        ap (feed_packet p bs) once
        ∙ fed bs t opened plain frame
        ∙ seen_again bs (byte_at bs 3) (word_at bs 4) t shakes refl in
      (ap (λ x. x.sent) once, ap (λ x. x.read_buffer) twice, ap (λ x. x.sent) twice)

  pub too_old :
      (bs : Bytes) (type_ seq last : ℕ) (s : Stream)
      → is_handshake_type type_ ≡ false
      → s.last_rx_seq ≡ some last
      → seq + 64 ≤ last
      → feed_frame p bs type_ seq s ≡ sendto (build_utack p type_ seq s) s
  unfolding feed_frame
  too_old bs type_ seq last s session seen old = simp (session, seen, le→leb (seq + 64) last old)

  -- New session keys do not make the stream forget the highest sequence number it has confirmed: a
  -- frame of the new session whose number is 64 or more behind that number is acknowledged, with
  -- the new keys, and dropped.
  pub feed_packet-set_session_keys :
      (bs tx rx : Bytes) (last : ℕ) (s : Stream)
      → s.closed ≡ false
      → is_utack bs ≡ false
      → holds_frame bs ≡ true
      → is_handshake_type (byte_at bs 3) ≡ false
      → s.last_rx_seq ≡ some last
      → word_at bs 4 + 64 ≤ last
      → let t = set_session_keys tx rx s in
        feed_packet p bs t ≡ sendto (build_utack p (byte_at bs 3) (word_at bs 4) t) t
  unfolding set_session_keys
  feed_packet-set_session_keys bs tx rx last s opened plain frame session seen old =
      let t = set_session_keys tx rx s in
      fed bs t opened plain frame ∙ too_old bs (byte_at bs 3) (word_at bs 4) last t session seen old
