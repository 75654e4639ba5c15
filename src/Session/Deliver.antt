-- ===== src/Session/Deliver.antt =====
-- A message over a reliable transport, from `send` to `recv`.
use usmp_python.Prelude.{
  ℕ, zero, suc, ◌+◌, ◌≤◌, ◌≡◌, refl, ap, ◌∙◌, subst, Option, some, List, ◌++◌, arith, length, drop,
  le→ltb, drop-append,
}
use usmp_python.Errors.{ok}
use usmp_python.Types.{Bytes}
use usmp_python.Bytes.{IsBytes}
use usmp_python.Crypto.{Primitives}
use usmp_python.Crypto.Laws.{IsAead}
use usmp_python.Session.State.{Session}
use usmp_python.Session.Send.{max_seq, send_loop, send}
use usmp_python.Session.Recv.{Arrival, start_reassembly, recv_internal, recv}
use usmp_python.Session.Packet.{IsReady}
use usmp_python.Session.Turn.{send_loop-fuel}
use usmp_python.Session.Exchange.{Read, Peers, send_loop-Delivers}

-- The byte strings that went out between two states.
abbrev pub sent_since : Session → Session → List Bytes
sent_since s s' = drop (length s.link.sent) s'.link.sent

send-loop :
    (p : Primitives) (bs : Bytes) (s : Session)
    → length bs ≤ 1808
    → send p bs s ≡ send_loop p 5 bs s
unfolding send
send-loop p bs s h = rw (le→ltb (length bs) 1808 h)

recv-internal :
    (p : Primitives) (timeout : Option ℕ) (now : ℕ) (arrivals later : List Arrival) (r r' : Session)
    (m : Bytes)
    → recv_internal p arrivals (start_reassembly now) r ≡ (ok (some m), later, r')
    → recv p timeout now arrivals r ≡ (ok (some m), later, r')
unfolding recv
recv-internal p timeout now arrivals later r r' m e = ground (arith, e)

-- Over a reliable transport that delivers every write, a message of at most 1808 bytes is sent
-- without an error, and the peer's `recv` takes exactly the frames of this message and returns
-- exactly the message, with a timeout or without, as long as the keys, the identifier, the suite
-- and the next number of the two agree and four numbers are left. After that they agree again.
pub send-recv :
    (p : Primitives) (laws : IsAead p) (bs : Bytes) (s r : Session) (timeout : Option ℕ) (now : ℕ)
    (arrivals later : List Arrival)
    → IsReady s
    → Peers s r
    → IsBytes bs
    → length bs ≤ 1808
    → s.info.tx_seq + 4 ≤ max_seq
    → Read (sent_since s (send p bs s).1) arrivals
    → ((send p bs s).0 ≡ ok tt)
      × IsReady (send p bs s).1
      × (r' : Session) × (recv p timeout now (arrivals ++ later) r ≡ (ok (some bs), later, r'))
      × Peers (send p bs s).1 r'
send-recv p laws bs s r timeout now arrivals later ready peers bytes fits room =
    rw (send-loop p bs s fits) (λ read.
      let (done, ready', ws, sent, receives) =
        send_loop-Delivers p laws 3 4 bs s ready bytes fits (omega arith) room in
      let new : sent_since s (send_loop p 5 bs s).1 ≡ ws =
        ap (drop (length s.link.sent)) sent
        ∙ drop-append (length s.link.sent) s.link.sent ws refl in
      let (r', e, peers') =
        receives r (start_reassembly now) arrivals later peers
          (omega arith, λ h. absurd (omega arith)) (subst (λ x. Read x arrivals) new read) in
      (done, ready', r', recv-internal p timeout now (arrivals ++ later) later r r' bs e, peers'))

-- The loop of `send` ends: on a message within the limit, any fuel of four turns or more does the
-- same as the fuel of `send`, whatever the session and the transport do.
pub send-enough_fuel :
    (p : Primitives) (bs : Bytes) (s : Session) (fuel : ℕ)
    → length bs ≤ 1808
    → 4 ≤ fuel
    → send p bs s ≡ send_loop p fuel bs s
send-enough_fuel p bs s zero h four = absurd (omega arith)
send-enough_fuel p bs s (suc fuel) h four =
    send-loop p bs s h ∙ send_loop-fuel p 3 4 fuel bs s h (omega arith) (omega arith)
