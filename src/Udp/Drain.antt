-- ===== src/Udp/Drain.antt =====
-- The retransmission of `drain`: when it succeeds and when it gives up.
use usmp_python.Prelude.{
  ℕ, zero, suc, ◌≡◌, refl, true, false, none, some, List, [], ◌∷◌, ◌⊎◌, inl, inr, arith, ◌∙◌, sym,
  take, Bool-cases, Any, Any-map,
}
use usmp_python.Errors.{Result, ok, err, os_error}
use usmp_python.Types.{Bytes}
use usmp_python.Crypto.{Primitives}
use usmp_python.Udp.Stream.{Stream, sendto, feed_packet, feed_packets}
use usmp_python.Udp.Send.{attempts, drain}
use usmp_python.Udp.Ack.{Kept, Kept-refl, Kept-trans, IsAckFor, feed_packet-Kept, feed_packet-acked}

pub sendto-Kept : (bs : Bytes) (s : Stream) → Kept s (sendto bs s)
sendto-Kept bs s = record {
  same_seq = refl;
  same_type = refl;
  same_key = refl;
  same_closed = refl;
  still_acked = λ h. h;
}

module _ (p : Primitives) where
  -- An acknowledgement of the frame that waits now is one of the frame that waited before.
  IsAckFor-Kept : (s s' : Stream) (d : Bytes) → Kept s s' → IsAckFor p d s' → IsAckFor p d s
  IsAckFor-Kept s s' d k a = record {
    marked = a.marked;
    names_seq = sym k.same_seq ∙ a.names_seq;
    names_type = sym k.same_type ∙ a.names_type;
    signed = λ late. let (key, held, same) = a.signed late in (key, sym k.same_key ∙ held, same);
  }

  abbrev pub Answered : Stream → List Bytes → Type 0
  Answered s = Any (λ d. IsAckFor p d s)

  Answered-Kept : (s s' : Stream) (ds : List Bytes) → Kept s s' → Answered s' ds → Answered s ds
  Answered-Kept s s' ds k =
      Any-map (λ d. IsAckFor p d s') (λ d. IsAckFor p d s) ds (λ d. IsAckFor-Kept s s' d k)

  pub feed_packets-Kept : (ds : List Bytes) (s : Stream) → Kept s (feed_packets p ds s)
  unfolding feed_packets
  feed_packets-Kept [] s = Kept-refl s
  feed_packets-Kept (d ∷ ds) s =
      Kept-trans s (feed_packet p d s) _ (feed_packet-Kept p d s) (feed_packets-Kept ds _)

  feed_packets-acked :
      (ds : List Bytes) (s : Stream)
      → s.acked ≡ false
      → (feed_packets p ds s).acked ≡ true
      → Answered s ds
  unfolding feed_packets
  feed_packets-acked [] s h r = absurd (ground arith)
  feed_packets-acked (d ∷ ds) s h r = elim (Bool-cases (feed_packet p d s).acked) [
    | inl now ↦ inl (feed_packet-acked p d s h now)
    | inr later ↦
        inr (Answered-Kept s _ ds (feed_packet-Kept p d s) (feed_packets-acked ds _ later r))
  ]

  -- One attempt: it is acknowledged, or the attempts that are left decide.
  pub attempt-cases :
      (n : ℕ) (bs : Bytes) (arrivals : List Bytes) (waits : List (List Bytes)) (s : Stream)
      → (((feed_packets p arrivals (sendto bs s)).acked ≡ true)
          × ((attempts p (suc n) bs (arrivals ∷ waits) s).0 ≡ ok tt))
        ⊎ (((feed_packets p arrivals (sendto bs s)).acked ≡ false)
            × (attempts p (suc n) bs (arrivals ∷ waits) s
                ≡ attempts p n bs waits (feed_packets p arrivals (sendto bs s))))
  unfolding attempts
  attempt-cases n bs arrivals waits s =
      elim (Bool-cases (feed_packets p arrivals (sendto bs s)).acked) [
        | inl done ↦ inl (done, simp done)
        | inr late ↦ inr (late, simp late)
      ]

  abbrev Ends : Result (Unit {0}) → Stream → List (List Bytes) → Type 0
  Ends r s waits = (r ≡ err os_error) ⊎ ((r ≡ ok tt) × Any (Answered s) waits)

  Ends-later :
      (r : Result (Unit {0})) (s s' : Stream) (arrivals : List Bytes) (waits : List (List Bytes))
      → Kept s s'
      → Ends r s' waits
      → Ends r s (arrivals ∷ waits)
  Ends-later r s s' arrivals waits k (inl failed) = inl failed
  Ends-later r s s' arrivals waits k (inr (done, some_wait)) = inr (
    done,
    inr (Any-map (Answered s') (Answered s) waits (λ ds. Answered-Kept s s' ds k) some_wait),
  )

  attempts-Ends :
      (n : ℕ) (bs : Bytes) (waits : List (List Bytes)) (s : Stream)
      → s.acked ≡ false
      → Ends (attempts p n bs waits s).0 s (take n waits)
  unfolding attempts
  attempts-Ends zero bs waits s h = inl refl
  attempts-Ends (suc n) bs [] s h = elim (attempts-Ends n bs [] (sendto bs s) h) [
    | inl failed ↦ inl failed
    | inr (done, w) ↦ absurd (nowhere n w)
  ]
    where
      nowhere : (k : ℕ) → Any (Answered (sendto bs s)) (take k []) → ⊥
      nowhere zero w = w
      nowhere (suc k) w = w
  attempts-Ends (suc n) bs (arrivals ∷ waits) s h = elim (attempt-cases n bs arrivals waits s) [
    | inl (acked, done) ↦ inr (
      done,
      inl (
          Answered-Kept s (sendto bs s) arrivals (sendto-Kept bs s)
            (feed_packets-acked arrivals (sendto bs s) h acked)),
    )
    | inr (late, e) ↦ rw e (
        Ends-later _ s _ arrivals (take n waits)
          (Kept-trans s (sendto bs s) _ (sendto-Kept bs s)
            (feed_packets-Kept arrivals (sendto bs s)))
          (attempts-Ends n bs waits _ late))
  ]

  -- The state in which the attempts start.
  abbrev pub begin : Stream → Stream
  begin s = record s { pending_send_data = none; acked = false }

  Answered-begin : (s : Stream) (ds : List Bytes) → Answered (begin s) ds → Answered s ds
  Answered-begin s ds = Any-map _ _ ds λ d a. record {
    marked = a.marked;
    names_seq = a.names_seq;
    names_type = a.names_type;
    signed = a.signed;
  }

  pub drain-attempts :
      (waits : List (List Bytes)) (s : Stream) (bs : Bytes) (seq : ℕ)
      → s.pending_send_data ≡ some bs
      → s.pending_send_seq ≡ some seq
      → drain p waits s ≡ attempts p 5 bs waits (begin s)
  unfolding drain
  drain-attempts waits s bs seq hd hs = simp (hd, hs)

  -- `drain` of a frame with a sequence number either raises `OSError`, or returns and then, in one of
  -- the waits of its five attempts, a datagram came in that acknowledges this very frame.
  pub drain-Answered :
      (waits : List (List Bytes)) (s : Stream) (bs : Bytes) (seq : ℕ)
      → s.pending_send_data ≡ some bs
      → s.pending_send_seq ≡ some seq
      → ((drain p waits s).0 ≡ err os_error)
        ⊎ (((drain p waits s).0 ≡ ok tt) × Any (Answered s) (take 5 waits))
  drain-Answered waits s bs seq hd hs =
      rw (drain-attempts waits s bs seq hd hs) (elim (attempts-Ends 5 bs waits (begin s) refl) [
        | inl failed ↦ inl failed
        | inr (done, w) ↦
            inr
              (done, Any-map (Answered (begin s)) (Answered s) (take 5 waits) (Answered-begin s) w)
      ])
