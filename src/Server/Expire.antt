-- ===== src/Server/Expire.antt =====
-- Which connections count as failed handshakes.
use usmp_python.Prelude.{
  ℕ, suc, ◌<◌, ◌≡◌, refl, Bool, true, false, Option, Bool-cases, inl, inr, arith, if◌then◌else◌,
}
use usmp_python.Errors.{Exn, Result, ok, err, is_handshake_error, is_timeout_error}
use usmp_python.Types.{Bytes}
use usmp_python.Crypto.{Primitives}
use usmp_python.Handshake.Limiter.{Failures, fails_of, lookup, record_failed_handshake}
use usmp_python.Handshake.Limiter.Lockout.{record-check_lockout}
use usmp_python.Handshake.Psk.{PskSource}
use usmp_python.Server.State.{Server}
use usmp_python.Server.Connect.{admit_tcp}
use usmp_python.Server.Handle.{
  Handler, Visit, Node, handle_exception, run_handshake, run_session, on_tcp_connect,
}

-- The `try` ended with `TimeoutError` or `USMPTimeoutError`.
abbrev pub timed_out : Result (Unit {0}) → Bool
timed_out (ok _) = false
timed_out (err e) = is_timeout_error e

not_both : (e : Exn) → is_timeout_error e ≡ true → is_handshake_error e ≡ false
not_both e h = ground arith

module _ (now : ℕ) (ip : Bytes) (failures : Failures) where
  expired :
      (e : Exn)
      → is_timeout_error e ≡ true
      → handle_exception now ip (err e) failures ≡ record_failed_handshake now ip failures
  expired e h = simp (not_both e h, h)

  passed :
      (e : Exn)
      → is_timeout_error e ≡ false
      → handle_exception now ip (err e) failures ≡ (ok tt, failures)
  passed e h = ground arith

  handle_exception-counts :
      (r : Result (Unit {0}))
      → suc (fails_of (lookup ip failures)) < 1029
      → ((handle_exception now ip r failures).0 ≡ ok tt)
        × (fails_of (lookup ip (handle_exception now ip r failures).1) ≡ (
            if timed_out r
            then suc (fails_of (lookup ip failures))
            else fails_of (lookup ip failures)))
  handle_exception-counts (ok _) few = (refl, refl)
  handle_exception-counts (err e) few = elim (Bool-cases (is_timeout_error e)) [
    | inl late ↦
        let (done, counted, _) = record-check_lockout now 0 ip failures few in
        rw (expired e late, late) (done, counted)
    | inr other ↦ rw (passed e other, other) (refl, refl)
  ]

-- A TCP connection that was admitted counts as a failed handshake, beyond what the handshake itself
-- has recorded, exactly if it ended with a timeout, be it of the handshake or, after a handshake
-- that succeeded, of the session handler; and the call returns, below 1029 failures.
pub on_tcp_connect-counts :
    (p : Primitives) (psk : PskSource) (handler : Option Handler) (v : Visit) (n : Node)
    (s : Server)
    → admit_tcp v.ip n.server ≡ (true, s)
    → let o = run_handshake p psk handler v n.failures in
      suc (fails_of (lookup v.ip o.1.failures)) < 1029
      → let (r, link, n') = on_tcp_connect p psk handler v n in
        (r ≡ ok tt)
        × (link.closed ≡ true)
        × (fails_of (lookup v.ip n'.failures) ≡ (
            if timed_out (run_session p psk handler v o).0
            then suc (fails_of (lookup v.ip o.1.failures))
            else fails_of (lookup v.ip o.1.failures)))
unfolding on_tcp_connect
on_tcp_connect-counts p psk handler v n s admitted few =
    let o = run_handshake p psk handler v n.failures in
    let (done, counted) =
      handle_exception-counts v.timed_out v.ip o.1.failures (run_session p psk handler v o).0 few in
    rw admitted (done, refl, counted)
