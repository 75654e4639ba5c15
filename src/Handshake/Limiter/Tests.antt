-- ===== src/Handshake/Limiter/Tests.antt =====
-- Examples for the limiter.
use usmp_python.Prelude.{
  refl, suc, ◌+◌, ◌≡◌, ◌&&◌, [], ◌∷◌, arith, ltb, leb, if◌then◌else◌, bytes_eq,
}
use usmp_python.Errors.{ok, err, handshake_error}
use usmp_python.Types.{Bytes}
use usmp_python.Handshake.Limiter.{
  Failures, lookup, fails_of, record_failed_handshake, check_lockout,
}
use usmp_python.Handshake.Limiter.Lockout.{
  backoff, record-check_lockout, record_all, record_all-check_lockout,
}

abbrev host : Bytes
host = 49 ∷ 48 ∷ []

-- Six failures so far, and an address that gave up long ago.
abbrev failures : Failures
failures =
    ((50 ∷ [], record { fails = 1; lockout_until = 0; last_attempt = 0 })
      ∷ (host, record { fails = 6; lockout_until = 902000; last_attempt = 900000 })
      ∷ [])

record-check_lockout_example :
    let (r, t) = record_failed_handshake 903000 host failures in
    (r ≡ ok tt)
    × (fails_of (lookup host t) ≡ suc (fails_of (lookup host failures)))
    × (check_lockout 905000 host t ≡ (
        if leb 5 (suc (fails_of (lookup host failures)))
          && ltb 905000 (903000 + backoff (suc (fails_of (lookup host failures))))
        then err handshake_error
        else ok tt))
unfolding lookup bytes_eq
record-check_lockout_example = record-check_lockout 903000 905000 host failures (omega arith)

-- One failure is left to be recorded; four more follow before the minute is over.
abbrev stubborn : Failures
stubborn = (host, record { fails = 1027; lockout_until = 902000; last_attempt = 900000 }) ∷ []

record_all-check_lockout_example :
    check_lockout 963000 host (
      record_all
        (904000 ∷ 950000 ∷ 962000 ∷ 962999 ∷ [])
        host
        (record_failed_handshake 903000 host stubborn).1)
    ≡ (if ltb 963000 (903000 + 60000) then err handshake_error else ok tt)
unfolding lookup bytes_eq
record_all-check_lockout_example =
    record_all-check_lockout 903000 963000 (904000 ∷ 950000 ∷ 962000 ∷ 962999 ∷ []) host stubborn
      refl
