-- ===== src/Server/Handle.antt =====
-- `_on_transport_connect` of src/usmp/_server.py as a whole: admission, handshake, session handler,
-- `except` clauses and `finally`. `Link` is the transport as the handshake and the session see it.
-- A handshake that runs out of time is a read that ends with `TimeoutError`; the wait for the
-- semaphore of `_run_handshake` is no step, and other tasks run before or after, not in between.
use usmp_python.Prelude.{ℕ, Bool, true, false, Option, none, some, List, if◌then◌else◌}
use usmp_python.Errors.{Result, ok, err, is_handshake_error, is_timeout_error}
use usmp_python.Types.{Bytes, UsmpFrame, SessionInfo}
use usmp_python.Crypto.{Primitives}
use usmp_python.Transport.{Link, close}
use usmp_python.Session.State.{Session, new_session}
use usmp_python.Handshake.Limiter.{Failures, record_failed_handshake}
use usmp_python.Handshake.Psk.{PskSource}
use usmp_python.Handshake.State.{Wire}
use usmp_python.Handshake.Server.{Draws, server_handshake}
use usmp_python.Server.State.{Connection, Server}
use usmp_python.Server.Connect.{admit_tcp, finish_tcp, establish_udp, finish_udp}

-- The function that `on_session` registered: what it raises, and the session it leaves.
abbrev pub Handler : Type 0
Handler = Session → Result (Unit {0}) × Session

-- A connection: its transport, the frames to come, what the handshake draws, and the clock: at the
-- test of the lockout, when the handshake records a failure, when the session starts, and in the
-- `except` clause for timeouts.
pub record Visit : Type 0 where
  pub ip : Bytes
  pub link : Link
  pub reads : List (Result UsmpFrame)
  pub drawn : Draws
  pub arrived : ℕ
  pub failed_at : ℕ
  pub started : ℕ
  pub timed_out : ℕ

-- The state of the process: the server, and the table of failed handshakes.
pub record Node : Type 0 where
  pub server : Server
  pub failures : Failures

-- `if self._handler: await self._handler(session)`.
abbrev pub run_handler : Option Handler → Session → Result (Unit {0}) × Link
run_handler none s = (ok tt, s.link)
run_handler (some handler) s = let (r, s') = handler s in (r, s'.link)

-- The `except` clauses: all log, and the one for timeouts records a failed handshake.
abbrev pub handle_exception :
    ℕ → Bytes → Result (Unit {0}) → Failures → Result (Unit {0}) × Failures
handle_exception now ip (ok _) failures = (ok tt, failures)
handle_exception now ip (err e) failures =
    if is_handshake_error e
    then (ok tt, failures)
    else if is_timeout_error e
    then record_failed_handshake now ip failures
    else (ok tt, failures)

module _ (p : Primitives) (psk : PskSource) (handler : Option Handler) (v : Visit) where
  -- `_run_handshake`.
  unfoldable pub run_handshake : Failures → Result SessionInfo × Wire
  run_handshake failures =
      server_handshake p psk v.ip v.drawn v.arrived v.failed_at
        (record { link = v.link; reads = v.reads; failures = failures })

  -- The rest of the `try` once the session may start, or the error of the handshake.
  abbrev pub run_session : Result SessionInfo × Wire → Result (Unit {0}) × Link
  run_session (err e, w) = (err e, w.link)
  run_session (ok info, w) = run_handler handler (new_session w.link info v.started)

  -- What is left after the `try`: the result of the call, the transport and the node.
  abbrev pub leave : Result (Unit {0}) × Link → Server → Failures → Result (Unit {0}) × Link × Node
  leave (r, link) server failures =
      let (r', failures') = handle_exception v.timed_out v.ip r failures in
      (r', close link, record { server = server; failures = failures' })

  abbrev pub admitted_tcp : Node → Bool × Server → Result (Unit {0}) × Link × Node
  admitted_tcp n (false, s) = (ok tt, close v.link, record { server = s; failures = n.failures })
  admitted_tcp n (true, s) =
      let o = run_handshake n.failures in leave (run_session o) (finish_tcp v.ip s) (o.1.failures)

  unfoldable pub on_tcp_connect : Node → Result (Unit {0}) × Link × Node
  on_tcp_connect n = admitted_tcp n (admit_tcp v.ip n.server)

  -- A UDP connection that becomes a session or finds the limits reached.
  abbrev pub established :
      Connection → SessionInfo × Wire → Bool × Server → Result (Unit {0}) × Link × Node
  established c (info, w) (false, s) = leave (ok tt, close w.link) (finish_udp true c s) w.failures
  established c (info, w) (true, s) =
      leave (run_session (ok info, w)) (finish_udp true c s) w.failures

  abbrev pub shaken_udp :
      Connection → Server → Result SessionInfo × Wire → Result (Unit {0}) × Link × Node
  shaken_udp c s (err e, w) = leave (err e, w.link) (finish_udp false c s) w.failures
  shaken_udp c s (ok info, w) = established c (info, w) (establish_udp c s)

  -- The task that the listener created for a datagram.
  unfoldable pub on_udp_connect : Connection → Node → Result (Unit {0}) × Link × Node
  on_udp_connect c n = shaken_udp c n.server (run_handshake n.failures)
