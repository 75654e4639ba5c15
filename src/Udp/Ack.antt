-- ===== src/Udp/Ack.antt =====
-- What counts as an acknowledgement: which datagrams set `_ack_received_event`.
use usmp_python.Prelude.{
  ℕ, ◌≤◌, ◌≡◌, refl, true, false, not, Option, none, some, inl, inr, arith, ap, ◌∙◌, sym, take,
  drop, leb, ◌&&◌, eq_of_bytes_eq,
}
use usmp_python.Types.{Bytes}
use usmp_python.Crypto.{Primitives}
use usmp_python.Udp.Stream.{
  Stream, utack_mac, mac_valid, is_some, is_utack, feed_utack, accept_datagram, feed_frame,
  feed_packet, byte_at, word_at,
}
use usmp_python.Udp.Buffer.{feed_packet-cases}

-- What no datagram changes. An acknowledgement that came in stays.
pub record Kept (s s' : Stream) : Type 0 where
  pub same_seq : s'.pending_send_seq ≡ s.pending_send_seq
  pub same_type : s'.pending_send_type ≡ s.pending_send_type
  pub same_key : s'.tx_key ≡ s.tx_key
  pub same_closed : s'.closed ≡ s.closed
  pub still_acked : s.acked ≡ true → s'.acked ≡ true

pub Kept-refl : (s : Stream) → Kept s s
Kept-refl s = record {
  same_seq = refl;
  same_type = refl;
  same_key = refl;
  same_closed = refl;
  still_acked = λ h. h;
}

pub Kept-trans : (s t u : Stream) → Kept s t → Kept t u → Kept s u
Kept-trans s t u a b = record {
  same_seq = b.same_seq ∙ a.same_seq;
  same_type = b.same_type ∙ a.same_type;
  same_key = b.same_key ∙ a.same_key;
  same_closed = b.same_closed ∙ a.same_closed;
  still_acked = λ h. b.still_acked (a.still_acked h);
}

module _ (p : Primitives) where
  -- `bs` acknowledges the frame that waits: it names its type and sequence number and, for a type of
  -- the session phase, carries the code that `tx_key` gives for its header.
  pub record IsAckFor (bs : Bytes) (s : Stream) : Type 0 where
    pub marked : is_utack bs ≡ true
    pub names_seq : s.pending_send_seq ≡ some (word_at bs 3)
    pub names_type : s.pending_send_type ≡ some (byte_at bs 2)
    pub signed :
        5 ≤ byte_at bs 2
        → (key : Bytes) × (s.tx_key ≡ some key)
          × (take 8 (drop 7 bs) ≡ take 8 (p.hmac_sha256 key (take 7 bs)))

  feed_frame-Kept : (bs : Bytes) (type_ seq : ℕ) (s : Stream) → Kept s (feed_frame p bs type_ seq s)
  unfolding feed_frame accept_datagram
  feed_frame-Kept bs type_ seq s = record {
    same_seq = ground arith;
    same_type = ground arith;
    same_key = ground arith;
    same_closed = ground arith;
    still_acked = λ h. ground arith;
  }

  feed_frame-acked :
      (bs : Bytes) (type_ seq : ℕ) (s : Stream) → (feed_frame p bs type_ seq s).acked ≡ s.acked
  unfolding feed_frame accept_datagram
  feed_frame-acked bs type_ seq s = ground arith

  feed_utack-Kept : (bs : Bytes) (s : Stream) → Kept s (feed_utack p bs s)
  unfolding feed_utack
  feed_utack-Kept bs s = record {
    same_seq = ground arith;
    same_type = ground arith;
    same_key = ground arith;
    same_closed = ground arith;
    still_acked = λ h. ground arith;
  }

  pub feed_packet-Kept : (bs : Bytes) (s : Stream) → Kept s (feed_packet p bs s)
  feed_packet-Kept bs s = elim (feed_packet-cases p bs s) [
    | inl e ↦ rw e (Kept-refl s)
    | inr (inl (opened, ack, e)) ↦ rw e (feed_utack-Kept bs s)
    | inr (inr (opened, other, frame, e)) ↦
        rw e (feed_frame-Kept bs (byte_at bs 3) (word_at bs 4) s)
  ]

  is_some-eq : (o : Option ℕ) (n : ℕ) → is_some o n ≡ true → o ≡ some n
  is_some-eq none n h = cc
  is_some-eq (some m) n h = ap some (ground arith)

  mac_valid-eq :
      (o : Option Bytes) (bs : Bytes)
      → mac_valid p o bs ≡ true
      → (key : Bytes) × (o ≡ some key)
        × (take 8 (drop 7 bs) ≡ take 8 (p.hmac_sha256 key (take 7 bs)))
  unfolding utack_mac
  mac_valid-eq none bs h = absurd (ground arith)
  mac_valid-eq (some key) bs h = (key, refl, sym (eq_of_bytes_eq _ _ (ground arith)))

  feed_utack-acked :
      (bs : Bytes) (s : Stream)
      → s.acked ≡ false
      → (feed_utack p bs s).acked ≡ true
      → (leb 5 (byte_at bs 2) && not (mac_valid p s.tx_key bs) ≡ false)
        × (is_some s.pending_send_seq (word_at bs 3) ≡ true)
        × (is_some s.pending_send_type (byte_at bs 2) ≡ true)
  unfolding feed_utack
  feed_utack-acked bs s h r = (ground arith, ground arith, ground arith)

  -- A datagram sets the event only if it is an acknowledgement of the frame that waits: it names
  -- the frame's sequence number and type and, from type 5 on, carries the code of its header under
  -- `tx_key`.
  pub feed_packet-acked :
      (bs : Bytes) (s : Stream)
      → s.acked ≡ false
      → (feed_packet p bs s).acked ≡ true
      → IsAckFor bs s
  feed_packet-acked bs s h r = elim (feed_packet-cases p bs s) [
    | inl e ↦ absurd (ground (arith, ap (λ t. t.acked) e))
    | inr (inl (opened, ack, e)) ↦
        let (guard, seq, type_) = feed_utack-acked bs s h (sym (ap (λ t. t.acked) e) ∙ r) in
        record {
          marked = ack;
          names_seq = is_some-eq s.pending_send_seq (word_at bs 3) seq;
          names_type = is_some-eq s.pending_send_type (byte_at bs 2) type_;
          signed = λ late. mac_valid-eq s.tx_key bs (ground arith);
        }
    | inr (inr (opened, other, frame, e)) ↦
        absurd
          (ground (arith, ap (λ t. t.acked) e, feed_frame-acked bs (byte_at bs 3) (word_at bs 4) s))
  ]
