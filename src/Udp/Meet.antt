-- ===== src/Udp/Meet.antt =====
-- What five attempts over such a network come to at both ends.
use usmp_python.Prelude.{
  ℕ, zero, suc, ◌+◌, ◌≤◌, ◌<◌, ◌≡◌, refl, true, false, List, [], ◌∷◌, ◌++◌, inl, inr, arith, length,
  ap, ◌∙◌, sym, drop-append, replicate, append_assoc, append-nil, length-append,
}
use usmp_python.Errors.{ok}
use usmp_python.Types.{Bytes}
use usmp_python.Crypto.{Primitives}
use usmp_python.Crypto.Laws.{IsSized}
use usmp_python.Udp.Stream.{
  Stream, max_read_buffer, sendto, build_utack, utack_header, feed_packet, feed_packets, byte_at,
  word_at,
}
use usmp_python.Udp.Send.{attempts}
use usmp_python.Udp.Queue.{concat}
use usmp_python.Udp.Reply.{feed_packet-build_utack, built, opened_utack}
use usmp_python.Udp.Network.{
  Fate, is_answered, received, tries, outcome, HasRoom, meet, Hears, IsSessionFrame, heard, hear,
  Hears-heard, Sends, Sends-sendto, Hears-sendto, silent_attempt, feed_utack-sent,
}

module _ (p : Primitives) (d : Bytes) where
  module _ (sized : IsSized p) where
    -- What an acknowledgement does to a sender that waits for it.
    utack_taken :
        (s r : Stream)
        → word_at d 4 < 4294967296
        → Hears p d s r
        → Sends p d s
        → let u = build_utack p (byte_at d 3) (word_at d 4) r in
          ((feed_packet p u s).acked ≡ true) × ((feed_packet p u s).sent ≡ s.sent)
    utack_taken s r narrow h w = (
      feed_packet-build_utack p sized (byte_at d 3) (word_at d 4) s r narrow h.paired w.open_sender
          w.of_type w.of_seq,
      elim (built p sized (byte_at d 3) (word_at d 4) h.paired.key r h.paired.signs) [
        | inl (early, e) ↦ rw e (quiet [])
        | inr (late, e) ↦ rw e (quiet _)
      ],
    )
      where
        quiet :
            (tail : Bytes)
            → (feed_packet p (utack_header (byte_at d 3) (word_at d 4) ++ tail) s).sent ≡ s.sent
        quiet tail =
            ap (λ x. x.sent) (opened_utack p sized (byte_at d 3) (word_at d 4) tail s w.open_sender)
            ∙ feed_utack-sent p d _ s

    -- An attempt whose acknowledgement comes in time.
    answered_attempt :
        (n : ℕ) (s r : Stream)
        → IsSessionFrame p d
        → Hears p d s r
        → Sends p d s
        → length r.read_buffer + length d ≤ max_read_buffer
        → let (waits, r') = meet p d (Fate.answered ∷ []) r in
          ((attempts p (suc n) d waits s).0 ≡ ok tt)
          × ((attempts p (suc n) d waits s).1.sent ≡ s.sent ++ (d ∷ []))
          × (r'.read_buffer ≡ r.read_buffer ++ d)
    unfolding meet attempts feed_packets
    answered_attempt n s r f h w room =
        let (acked, same) =
          utack_taken (sendto d s) r f.narrow (Hears-sendto p d s r h) (Sends-sendto p d s w) in
        rw
          (
            hear p d r f h.opened h.recent room,
            drop-append (length r.sent) r.sent (build_utack p (byte_at d 3) (word_at d 4) r ∷ [])
                refl,
          )
          (simp acked, simp (acked, same), refl)

    abbrev pub Meets : ℕ → List Fate → Stream → Stream → Type 0
    Meets n fates s r =
        ((attempts p n d (meet p d fates r).0 s).0 ≡ outcome (is_answered fates))
        × ((meet p d fates r).1.read_buffer
            ≡ r.read_buffer ++ concat (replicate (received fates) d))
        × ((attempts p n d (meet p d fates r).0 s).1.sent ≡ s.sent ++ replicate (tries n fates) d)

    one_more :
        (s : Stream) (k : ℕ) (sent : List Bytes)
        → sent ≡ (sendto d s).sent ++ replicate k d
        → sent ≡ s.sent ++ replicate (suc k) d
    one_more s k sent e = e ∙ append_assoc s.sent (d ∷ []) (replicate k d)

    fit :
        (fates : List Fate) (r : Stream)
        → HasRoom d (Fate.unanswered ∷ fates) r
        → (length r.read_buffer + length d ≤ max_read_buffer) × HasRoom d fates (heard p d r)
    fit fates r room =
        let rest = concat (replicate (received fates) d) in
        (
          omega (arith, length-append d rest),
          omega (arith, length-append d rest, length-append r.read_buffer d),
        )

    unanswered_attempts : (n : ℕ) (s : Stream) → s.acked ≡ false → Meets n [] s s
    unfolding meet attempts
    unanswered_attempts zero s h = (refl, sym (append-nil _), sym (append-nil _))
    unanswered_attempts (suc n) s h =
        let (failed, _, sent) = unanswered_attempts n (sendto d s) h in
        (failed, sym (append-nil _), one_more s n _ sent)

    pub attempts-meet :
        (fates : List Fate) (n : ℕ) (s r : Stream)
        → length fates ≤ n
        → IsSessionFrame p d
        → Hears p d s r
        → Sends p d s
        → HasRoom d fates r
        → Meets n fates s r
    unfolding meet
    attempts-meet [] n s r few f h w room =
        let (failed, _, sent) = unanswered_attempts n s w.unacked in
        (failed, sym (append-nil _), sent)
    attempts-meet (fate ∷ fates) zero s r few f h w room = absurd (omega arith)
    attempts-meet (Fate.lost ∷ fates) (suc n) s r few f h w room =
        let (done, kept, sent) =
          attempts-meet fates n (sendto d s) r (omega arith) f (Hears-sendto p d s r h)
            (Sends-sendto p d s w) room in
        let e = silent_attempt p d n (meet p d fates r).0 s w.unacked in
        (ap (λ x. x.0) e ∙ done, kept, ap (λ x. x.1.sent) e ∙ one_more s (tries n fates) _ sent)
    attempts-meet (Fate.unanswered ∷ fates) (suc n) s r few f h w room =
        let (first, later) = fit fates r room in
        let (done, kept, sent) =
          attempts-meet fates n (sendto d s) (heard p d r) (omega arith) f
            (Hears-heard p d _ r (Hears-sendto p d s r h)) (Sends-sendto p d s w) later in
        let e = silent_attempt p d n (meet p d fates (heard p d r)).0 s w.unacked in
        rw (hear p d r f h.opened h.recent first) (
          ap (λ x. x.0) e ∙ done,
          kept ∙ append_assoc r.read_buffer d _,
          ap (λ x. x.1.sent) e ∙ one_more s (tries n fates) _ sent,
        )
    attempts-meet (Fate.answered ∷ fates) (suc n) s r few f h w room =
        let (done, sent, kept) =
          answered_attempt n s r f h w (omega (arith, ap length (append-nil d))) in
        (done, kept ∙ ap (λ x. r.read_buffer ++ x) (sym (append-nil d)), sent)
