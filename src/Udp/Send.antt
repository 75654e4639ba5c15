-- ===== src/Udp/Send.antt =====
-- Writing to a `UDPStream`: `write`, `drain` and `write_frame`. The estimate of the round trip is
-- left out: how long an attempt waits shows in the datagrams that arrive before the wait ends,
-- which are an argument.
use usmp_python.Prelude.{
  ℕ, zero, suc, false, Option, none, some, List, [], ◌∷◌, leb, if◌then◌else◌, length,
}
use usmp_python.Errors.{Result, ok, err, os_error}
use usmp_python.Types.{Bytes, PacketType, usmp_version}
use usmp_python.Crypto.{Primitives}
use usmp_python.Frame.{encode_frame}
use usmp_python.Udp.Stream.{Stream, sendto, byte_at, word_at, feed_packets}

module _ (p : Primitives) where
  -- The attempts of `drain` that are left, and what arrives during each.
  unfoldable pub attempts : ℕ → Bytes → List (List Bytes) → Stream → Result (Unit {0}) × Stream
  attempts zero bs waits s = (err os_error, s)
  attempts (suc n) bs [] s = attempts n bs [] (sendto bs s)
  attempts (suc n) bs (arrivals ∷ waits) s =
      let s' = feed_packets p arrivals (sendto bs s) in
      let retry = attempts n bs waits s' in if s'.acked then (ok tt, s') else retry

  abbrev pub drain_data : Option Bytes → List (List Bytes) → Stream → Result (Unit {0}) × Stream
  drain_data none waits s = (ok tt, s)
  drain_data (some bs) waits s = elim s.pending_send_seq [
    | none ↦ (ok tt, sendto bs s)
    | some seq ↦ attempts 5 bs waits (record s { acked = false })
  ]

  unfoldable pub drain : List (List Bytes) → Stream → Result (Unit {0}) × Stream
  drain waits s = drain_data s.pending_send_data waits (record s { pending_send_data = none })

  unfoldable pub write : Bytes → Stream → Result (Unit {0}) × Stream
  write bs s =
      if s.closed
      then (err os_error, s)
      else if leb 8 (length bs)
      then (
        ok tt,
        record s {
          pending_send_data = some bs;
          pending_send_type = some (byte_at bs 3);
          pending_send_seq = some (word_at bs 4);
        },
      )
      else (
        ok tt,
        record s { pending_send_data = some bs; pending_send_type = none; pending_send_seq = none },
      )

  abbrev pub drain_after :
      List (List Bytes) → Result (Unit {0}) × Stream → Result (Unit {0}) × Stream
  drain_after waits (ok _, s) = drain waits s
  drain_after waits (err e, s) = (err e, s)

  abbrev pub write_encoded : List (List Bytes) → Result Bytes → Stream → Result (Unit {0}) × Stream
  write_encoded waits (ok bs) s = drain_after waits (write bs s)
  write_encoded waits (err e) s = (err e, s)

  unfoldable pub write_frame :
      PacketType → Bytes → ℕ → List (List Bytes) → Stream → Result (Unit {0}) × Stream
  write_frame type_ payload seq waits s =
      write_encoded waits (encode_frame type_ payload seq usmp_version) s
