-- ===== src/Transport/Tcp.antt =====
-- `TCPTransport` of src/usmp/transport/tcp.py over the streams of asyncio, with `read_frame` and
-- `write_frame` of src/usmp/_frame.py.
use usmp_python.Prelude.{ℕ, ◌≡◌, refl, Bool, true, List, [], ◌∷◌, ◌++◌, map, ap}
use usmp_python.Errors.{Result, ok, err}
use usmp_python.Types.{Bytes, PacketType, UsmpFrame, usmp_version}
use usmp_python.Frame.{encode_frame, read_frame}
use usmp_python.Transport.{
  Outcome, Link, outcome_of, transmit, later_outcomes, write_frame, set_session_keys,
  confirm_authenticated, close,
}

-- The reader: the bytes that came and were not read, and the end of the stream behind them. The
-- writer: what was written, and how the calls of `drain` to come end, after which all return.
pub record TcpTransport : Type 0 where
  pub reader : Bytes
  pub written : List Bytes
  pub drains : List (Result (Unit {0}))
  pub closed : Bool

unfoldable pub tcp_write : Bytes → TcpTransport → TcpTransport
tcp_write bs t = record t { written = t.written ++ (bs ∷ []) }

abbrev pub tcp_drain_as : List (Result (Unit {0})) → TcpTransport → Result (Unit {0}) × TcpTransport
tcp_drain_as [] t = (ok tt, t)
tcp_drain_as (r ∷ later) t = (r, record t { drains = later })

unfoldable pub tcp_drain : TcpTransport → Result (Unit {0}) × TcpTransport
tcp_drain t = tcp_drain_as t.drains t

abbrev pub tcp_write_encoded : Result Bytes → TcpTransport → Result (Unit {0}) × TcpTransport
tcp_write_encoded (err e) t = (err e, t)
tcp_write_encoded (ok bs) t = tcp_drain (tcp_write bs t)

unfoldable pub tcp_write_frame :
    PacketType → Bytes → ℕ → TcpTransport → Result (Unit {0}) × TcpTransport
tcp_write_frame type_ payload seq t =
    tcp_write_encoded (encode_frame type_ payload seq usmp_version) t

unfoldable pub tcp_read_frame : Bool → TcpTransport → Result UsmpFrame × TcpTransport
tcp_read_frame verify_crc t =
    let (r, rest) = read_frame verify_crc t.reader in (r, record t { reader = rest })

-- Both do nothing over TCP.
abbrev pub tcp_set_session_keys : Bytes → Bytes → TcpTransport → TcpTransport
tcp_set_session_keys tx rx t = t

abbrev pub tcp_confirm_authenticated : ℕ → TcpTransport → TcpTransport
tcp_confirm_authenticated seq t = t

abbrev pub tcp_close : TcpTransport → TcpTransport
tcp_close t = record t { closed = true }

-- How the write of a frame ends for a session, when `drain` ends like this.
abbrev pub outcome_of_drain : Result (Unit {0}) → Outcome
outcome_of_drain (ok _) = Outcome.delivered
outcome_of_drain (err e) = Outcome.sent_and_raised e

-- The transport that a session sees stands for this one: what it was told of keys and numbers aside.
pub record Shows (t : TcpTransport) (link : Link) : Type 0 where
  pub reliable : link.is_reliable ≡ true
  pub same_outcomes : link.outcomes ≡ map outcome_of_drain t.drains
  pub same_sent : link.sent ≡ t.written
  pub same_closed : link.closed ≡ t.closed

sent_more :
    (later : List (Result (Unit {0}))) (bs : Bytes) (t : TcpTransport) (link : Link)
    → Shows t link
    → Shows
        (record t { written = t.written ++ (bs ∷ []); drains = later })
        (record link { outcomes = map outcome_of_drain later; sent = link.sent ++ (bs ∷ []) })
sent_more later bs t link h = record {
  reliable = h.reliable;
  same_outcomes = refl;
  same_sent = ap (λ xs. xs ++ (bs ∷ [])) h.same_sent;
  same_closed = h.same_closed;
}

transmit-Shows :
    (drains : List (Result (Unit {0}))) (bs : Bytes) (t : TcpTransport) (link : Link)
    → t.drains ≡ drains
    → Shows t link
    → ((tcp_drain_as drains (tcp_write bs t)).0
        ≡ (transmit
            (record link { outcomes = later_outcomes link.outcomes })
            bs
            (outcome_of link.outcomes)).0)
      × Shows
          (tcp_drain_as drains (tcp_write bs t)).1
          (transmit
            (record link { outcomes = later_outcomes link.outcomes })
            bs
            (outcome_of link.outcomes)).1
unfolding tcp_write
transmit-Shows [] bs t link e h = rw (h.same_outcomes, e) (refl, sent_more _ bs t link h)
transmit-Shows (ok u ∷ later) bs t link e h =
    rw (h.same_outcomes, e) (refl, sent_more _ bs t link h)
transmit-Shows (err x ∷ later) bs t link e h =
    rw (h.same_outcomes, e) (refl, sent_more _ bs t link h)

encoded-Shows :
    (r : Result Bytes) (t : TcpTransport) (link : Link)
    → Shows t link
    → let there : Result (Unit {0}) × Link = elim r [
      | err e ↦ (err e, link)
      | ok bs ↦
          transmit
            (record link { outcomes = later_outcomes link.outcomes })
            bs
            (outcome_of link.outcomes)
    ] in
      ((tcp_write_encoded r t).0 ≡ there.0) × Shows (tcp_write_encoded r t).1 there.1
unfolding tcp_drain tcp_write
encoded-Shows (err e) t link h = (refl, h)
encoded-Shows (ok bs) t link h = transmit-Shows t.drains bs t link refl h

-- What a session is told of its transport is what `TCPTransport` does: a write has the same result,
-- puts the same bytes out and leaves the same writes to come, and a close closes; the session keys
-- and the authenticated numbers change nothing.
pub tcp-Shows :
    (t : TcpTransport) (link : Link) (kind : PacketType) (payload tx rx : Bytes) (seq : ℕ)
    → Shows t link
    → ((tcp_write_frame kind payload seq t).0 ≡ (write_frame link kind payload seq).0)
      × Shows (tcp_write_frame kind payload seq t).1 (write_frame link kind payload seq).1
      × Shows (tcp_set_session_keys tx rx t) (set_session_keys link tx rx)
      × Shows (tcp_confirm_authenticated seq t) (confirm_authenticated link seq)
      × Shows (tcp_close t) (close link)
unfolding tcp_write_frame write_frame
tcp-Shows t link kind payload tx rx seq h =
    let (same, shows) = encoded-Shows (encode_frame kind payload seq usmp_version) t link h in
    (
      same,
      shows,
      record {
        reliable = h.reliable;
        same_outcomes = h.same_outcomes;
        same_sent = h.same_sent;
        same_closed = h.same_closed;
      },
      record {
        reliable = h.reliable;
        same_outcomes = h.same_outcomes;
        same_sent = h.same_sent;
        same_closed = h.same_closed;
      },
      record {
        reliable = h.reliable;
        same_outcomes = h.same_outcomes;
        same_sent = h.same_sent;
        same_closed = refl;
      },
    )
