-- ===== src/Handshake/Limiter.antt =====
-- `_failed_handshakes`, `record_failed_handshake` and the test of `server_handshake`, in
-- src/usmp/_handshake.py. The dictionary is a list in the order of insertion; the clock is in
-- milliseconds.
pub mod Table
pub mod Lockout
mod Tests
use usmp_python.Prelude.{
  ℕ, suc, ◌+◌, ◌-◌, ◌*◌, ◌^◌, min, Bool, true, false, not, ◌&&◌, ◌||◌, Option, none, some, List, [],
  ◌∷◌, ltb, leb, if◌then◌else◌, bytes_eq, length,
}
use usmp_python.Errors.{Result, ok, err, overflow_error, handshake_error}
use usmp_python.Types.{Bytes}

-- `(fail_count, lockout_until, last_attempt_time)`.
pub record Entry : Type 0 where
  pub fails : ℕ
  pub lockout_until : ℕ
  pub last_attempt : ℕ

abbrev pub Failures : Type 0
Failures = List (Bytes × Entry)

-- `get`, `in`, `del` and the assignment of a dictionary.
unfoldable pub lookup : Bytes → Failures → Option Entry
lookup k [] = none
lookup k ((x, e) ∷ es) = let rest = lookup k es in if bytes_eq k x then some e else rest

unfoldable pub has : Bytes → Failures → Bool
has k [] = false
has k ((x, e) ∷ es) = let rest = has k es in if bytes_eq k x then true else rest

unfoldable pub erase : Bytes → Failures → Failures
erase k [] = []
erase k ((x, e) ∷ es) = let rest = erase k es in if bytes_eq k x then es else (x, e) ∷ rest

unfoldable pub put : Bytes → Entry → Failures → Failures
put k v [] = (k, v) ∷ []
put k v ((x, e) ∷ es) = let rest = put k v es in if bytes_eq k x then (x, v) ∷ es else (x, e) ∷ rest

-- `min(..., key=lambda k: _failed_handshakes[k][2])`: the first of the least recent ones.
unfoldable pub oldest : Bytes → ℕ → Failures → Bytes
oldest k t [] = k
oldest k t ((x, e) ∷ es) =
    let newer = oldest k t es in
    let older = oldest x e.last_attempt es in if ltb e.last_attempt t then older else newer

unfoldable pub drop_oldest : Failures → Failures
drop_oldest [] = []
drop_oldest ((k, e) ∷ es) = erase (oldest k e.last_attempt es) ((k, e) ∷ es)

abbrev pub is_expired : ℕ → Entry → Bool
is_expired now e =
    ltb (e.last_attempt + 600000) now || (ltb 0 e.lockout_until && ltb e.lockout_until now)

unfoldable pub prune : ℕ → Failures → Failures
prune now [] = []
prune now ((x, e) ∷ es) =
    let rest = prune now es in if is_expired now e then rest else (x, e) ∷ rest

abbrev pub fails_of : Option Entry → ℕ
fails_of none = 0
fails_of (some e) = e.fails

-- The lockout after this many failures. `2.0 ** n` raises `OverflowError` from 1024 on.
abbrev pub lockout : ℕ → ℕ → Result ℕ
lockout fails now =
    if not (leb 5 fails)
    then ok 0
    else if leb 1024 (fails - 5)
    then err overflow_error
    else ok (now + min 60000 (1000 * 2 ^ (fails - 5)))

-- The part after the computation of the lockout.
abbrev pub store : ℕ → Bytes → Entry → Failures → Failures
store now k e t =
    prune now (put k e (if leb 1000 (length t) && not (has k t) then drop_oldest t else t))

abbrev pub recorded : ℕ → Bytes → ℕ → Failures → Result ℕ → Result (Unit {0}) × Failures
recorded now k fails t (err e) = (err e, t)
recorded now k fails t (ok until) =
    (ok tt, store now k (record { fails = fails; lockout_until = until; last_attempt = now }) t)

unfoldable pub record_failed_handshake : ℕ → Bytes → Failures → Result (Unit {0}) × Failures
record_failed_handshake now k t =
    let fails = suc (fails_of (lookup k t)) in recorded now k fails t (lockout fails now)

-- The test at the start of `server_handshake`, and `pop` at its end.
abbrev pub check_entry : ℕ → Option Entry → Result (Unit {0})
check_entry now none = ok tt
check_entry now (some e) = if ltb now e.lockout_until then err handshake_error else ok tt

unfoldable pub check_lockout : ℕ → Bytes → Failures → Result (Unit {0})
check_lockout now k t = check_entry now (lookup k t)

abbrev pub forget : Bytes → Failures → Failures
forget k t = erase k t
