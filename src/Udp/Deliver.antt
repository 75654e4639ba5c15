-- ===== src/Udp/Deliver.antt =====
-- A frame that is acknowledged in time is sent with success.
use usmp_python.Prelude.{
  ℕ, zero, suc, ◌≤◌, ◌<◌, ◌≡◌, refl, true, false, some, List, [], ◌∷◌, inl, inr, arith, length, ap,
  ◌∙◌, take, le→leb, Any,
}
use usmp_python.Errors.{ok}
use usmp_python.Types.{Bytes, PacketType, packet_code}
use usmp_python.Bytes.{IsBytes}
use usmp_python.Bytes.Laws.{le32_value}
use usmp_python.Crypto.{Primitives}
use usmp_python.Crypto.Laws.{IsSized}
use usmp_python.Frame.RoundTrip.{encode_frame-wire, wire}
use usmp_python.Udp.Stream.{Stream, sendto, build_utack, feed_packet, feed_packets}
use usmp_python.Udp.Send.{attempts, drain, write, write_frame, write_encoded, drain_after}
use usmp_python.Udp.Ack.{Kept, Kept-trans, feed_packet-Kept}
use usmp_python.Udp.Reply.{Paired, feed_packet-build_utack}
use usmp_python.Udp.Drain.{sendto-Kept, begin, drain-attempts, attempt-cases, feed_packets-Kept}

-- The sender waits for an acknowledgement of this frame, and can check one of this peer.
record Waits (type_ seq : ℕ) (peer s : Stream) : Type 0 where
  narrow : seq < 4294967296
  paired : Paired type_ s peer
  opened : s.closed ≡ false
  of_type : s.pending_send_type ≡ some type_
  of_seq : s.pending_send_seq ≡ some seq

module _ (type_ seq : ℕ) (peer : Stream) where
  Waits-Kept : (s s' : Stream) → Kept s s' → Waits type_ seq peer s → Waits type_ seq peer s'
  Waits-Kept s s' k w = record {
    narrow = w.narrow;
    paired = record {
      key = w.paired.key;
      checks = λ late. k.same_key ∙ w.paired.checks late;
      signs = w.paired.signs;
    };
    opened = k.same_closed ∙ w.opened;
    of_type = k.same_type ∙ w.of_type;
    of_seq = k.same_seq ∙ w.of_seq;
  }

  module _ (p : Primitives) (sized : IsSized p) where
    abbrev pub Arrives : List Bytes → Type 0
    Arrives = Any (λ d. d ≡ build_utack p type_ seq peer)

    feed_packets-Arrives :
        (ds : List Bytes) (s : Stream)
        → Waits type_ seq peer s
        → Arrives ds
        → (feed_packets p ds s).acked ≡ true
    unfolding feed_packets
    feed_packets-Arrives [] s w a = absurd a
    feed_packets-Arrives (d ∷ ds) s w (inl e) =
        (feed_packets-Kept p ds (feed_packet p d s)).still_acked (
          ap (λ x. (feed_packet p x s).acked) e
          ∙ feed_packet-build_utack p sized type_ seq s peer w.narrow w.paired w.opened w.of_type
              w.of_seq)
    feed_packets-Arrives (d ∷ ds) s w (inr a) =
        feed_packets-Arrives ds (feed_packet p d s) (Waits-Kept s _ (feed_packet-Kept p d s) w) a

    attempts-Arrives :
        (n : ℕ) (bs : Bytes) (waits : List (List Bytes)) (s : Stream)
        → Waits type_ seq peer s
        → Any Arrives (take n waits)
        → (attempts p n bs waits s).0 ≡ ok tt
    attempts-Arrives zero bs waits s w a = absurd a
    attempts-Arrives (suc n) bs [] s w a = absurd a
    attempts-Arrives (suc n) bs (arrivals ∷ waits) s w a =
        elim (attempt-cases p n bs arrivals waits s) [
          | inl (acked, done) ↦ done
          | inr (late, e) ↦ ap (λ r. r.0) e ∙ later (attempts-Arrives n bs waits) late a
        ]
      where
        kept : Kept s (feed_packets p arrivals (sendto bs s))
        kept =
            Kept-trans s (sendto bs s) _ (sendto-Kept bs s)
              (feed_packets-Kept p arrivals (sendto bs s))

        later :
            ((s' : Stream)
              → Waits type_ seq peer s'
              → Any Arrives (take n waits)
              → (attempts p n bs waits s').0 ≡ ok tt)
            → (feed_packets p arrivals (sendto bs s)).acked ≡ false
            → Any Arrives (arrivals ∷ take n waits)
            → (attempts p n bs waits (feed_packets p arrivals (sendto bs s))).0 ≡ ok tt
        later rest late (inl here) =
            let came =
              feed_packets-Arrives arrivals (sendto bs s) (Waits-Kept s _ (sendto-Kept bs s) w)
                here in
            absurd (ground (arith, came))
        later rest late (inr there) = rest _ (Waits-Kept s _ kept w) there

    drain-Arrives :
        (waits : List (List Bytes)) (s : Stream) (bs : Bytes)
        → s.pending_send_data ≡ some bs
        → Waits type_ seq peer s
        → Any Arrives (take 5 waits)
        → (drain p waits s).0 ≡ ok tt
    drain-Arrives waits s bs hd w a =
        ap (λ r. r.0) (drain-attempts p waits s bs seq hd w.of_seq)
        ∙ attempts-Arrives 5 bs waits (begin p s) began a
      where
        began : Waits type_ seq peer (begin p s)
        began = record {
          narrow = w.narrow;
          paired = record { key = w.paired.key; checks = w.paired.checks; signs = w.paired.signs };
          opened = w.opened;
          of_type = w.of_type;
          of_seq = w.of_seq;
        }

module _ (p : Primitives) (sized : IsSized p) (t : PacketType) (payload : Bytes) (seq : ℕ)
    (s : Stream) where
  -- The stream once the frame was written.
  abbrev pub written : Stream
  written = record s {
    pending_send_data = some (wire t payload seq);
    pending_send_type = some (packet_code t);
    pending_send_seq = some seq;
  }

  write-wire :
      seq < 4294967296 → s.closed ≡ false → write p (wire t payload seq) s ≡ (ok tt, written)
  unfolding write
  write-wire h opened =
      simp (opened, le32_value seq h, le→leb 8 (length (wire t payload seq)) (omega arith))

  pub write_frame-drain :
      (waits : List (List Bytes))
      → IsBytes payload
      → length payload ≤ 480
      → seq < 4294967296
      → s.closed ≡ false
      → write_frame p t payload seq waits s ≡ drain p waits written
  unfolding write_frame
  write_frame-drain waits hb hp hs opened =
      ap (λ r. write_encoded p waits r s) (encode_frame-wire t payload seq hb hp hs)
      ∙ ap (drain_after p waits) (write-wire hs opened)

  -- Of five attempts to send a frame one is enough: if the acknowledgement that the peer builds comes
  -- in while one of them waits, whatever else comes in or is lost, `write_frame` returns.
  pub write_frame-Arrives :
      (waits : List (List Bytes)) (peer : Stream)
      → IsBytes payload
      → length payload ≤ 480
      → seq < 4294967296
      → s.closed ≡ false
      → Paired (packet_code t) s peer
      → Any (Arrives (packet_code t) seq peer p sized) (take 5 waits)
      → (write_frame p t payload seq waits s).0 ≡ ok tt
  write_frame-Arrives waits peer hb hp hs opened k a =
      ap (λ r. r.0) (write_frame-drain waits hb hp hs opened)
      ∙ drain-Arrives (packet_code t) seq peer p sized waits written (wire t payload seq) refl
          (record {
            narrow = hs;
            paired = record { key = k.key; checks = k.checks; signs = k.signs };
            opened = opened;
            of_type = refl;
            of_seq = refl;
          })
          a
