-- ===== src/Handshake/Limiter/Lockout.antt =====
-- What a recorded failure does to the next attempts.
use usmp_python.Prelude.{
  ℕ, suc, List, [], ◌∷◌, ◌∙◌, ◌+◌, ◌-◌, ◌*◌, ◌^◌, ◌≤◌, ◌<◌, ◌≡◌, refl, ap, min, false, some, arith,
  le→leb, lt→leb, ltb, leb, ◌&&◌, if◌then◌else◌, Bool-cases, inl, inr,
}
use usmp_python.Errors.{ok, err, overflow_error, handshake_error}
use usmp_python.Types.{Bytes}
use usmp_python.Handshake.Limiter.{
  Entry, Failures, lookup, recorded, fails_of, lockout, store, is_expired, record_failed_handshake,
  check_lockout, check_entry,
}
use usmp_python.Handshake.Limiter.Table.{lookup-put, lookup-prune}

-- How long the code locks an address out after this many failures, in milliseconds.
abbrev pub backoff : ℕ → ℕ
backoff fails = min 60000 (1000 * 2 ^ (fails - 5))

-- When the code locks an address out that has failed this often.
abbrev pub until : ℕ → ℕ → ℕ
until fails now = if leb 5 fails then now + backoff fails else 0

lockout-until : (fails now : ℕ) → fails < 1029 → lockout fails now ≡ ok (until fails now)
lockout-until fails now many = elim (Bool-cases (leb 5 fails)) [
  | inl few ↦ rw few (rw (lt→leb (fails - 5) 1024 (omega arith)))
  | inr other ↦ rw other
]

module _ (now : ℕ) (k : Bytes) (t : Failures) (many : suc (fails_of (lookup k t)) < 1029) where
  abbrev count : ℕ
  count = suc (fails_of (lookup k t))

  abbrev latest : Entry
  latest = record { fails = count; lockout_until = until count now; last_attempt = now }

  stays : is_expired now latest ≡ false
  stays = ground arith

  record-store : record_failed_handshake now k t ≡ (ok tt, store now k latest t)
  unfolding record_failed_handshake
  record-store = ap (recorded now k count t) (lockout-until count now many)

  found_latest : lookup k (store now k latest t) ≡ some latest
  found_latest = lookup-prune now k latest _ stays (lookup-put k latest _)

  latest_checked :
      (later : ℕ)
      → check_entry later (some latest)
        ≡ (if leb 5 count && ltb later (now + backoff count) then err handshake_error else ok tt)
  latest_checked later = ground arith

-- A failure that makes the count of an address n, below 1029, is recorded: right after it an
-- attempt is refused exactly if n is at least 5 and less than 2 ^ (n - 5) seconds have passed, at
-- most 60, and the count of the address is n.
pub record-check_lockout :
    (now later : ℕ) (k : Bytes) (t : Failures)
    → let n = suc (fails_of (lookup k t)) in
      let (r, t') = record_failed_handshake now k t in
      n < 1029
      → (r ≡ ok tt)
        × (fails_of (lookup k t') ≡ n)
        × (check_lockout later k t'
            ≡ (if leb 5 n && ltb later (now + backoff n) then err handshake_error else ok tt))
unfolding check_lockout
record-check_lockout now later k t many =
    rw (record-store now k t many, found_latest now k t many)
      (refl, refl, latest_checked now k t many later)

-- A failure that would make the count of an address 1029 or more is not recorded.
record_overflows :
    (now : ℕ) (k : Bytes) (t : Failures)
    → 1029 ≤ suc (fails_of (lookup k t))
    → (record_failed_handshake now k t ≡ (err overflow_error, t))
unfolding record_failed_handshake
record_overflows now k t many = rw (
  le→leb 5 (suc (fails_of (lookup k t))) (omega arith),
  le→leb 1024 (suc (fails_of (lookup k t)) - 5) (omega arith),
)

-- Failures of one address at these times.
unfoldable pub record_all : List ℕ → Bytes → Failures → Failures
record_all [] k t = t
record_all (now ∷ later) k t = record_all later k (record_failed_handshake now k t).1

record_all-full :
    (times : List ℕ) (k : Bytes) (t : Failures)
    → 1029 ≤ suc (fails_of (lookup k t))
    → record_all times k t ≡ t
unfolding record_all
record_all-full [] k t many = refl
record_all-full (now ∷ later) k t many =
    ap (λ x. record_all later k x.1) (record_overflows now k t many)
    ∙ record_all-full later k t many

-- The failure that makes the count of an address 1028 locks it out for 60 seconds, and no failure
-- after it ever does again: however many follow, and whenever, an attempt of the address is refused
-- exactly if those 60 seconds have not passed, while no other address fails.
pub record_all-check_lockout :
    (now later : ℕ) (times : List ℕ) (k : Bytes) (t : Failures)
    → fails_of (lookup k t) ≡ 1027
    → check_lockout later k (record_all times k (record_failed_handshake now k t).1)
      ≡ (if ltb later (now + 60000) then err handshake_error else ok tt)
record_all-check_lockout now later times k t count =
    let (_, kept, checked) = record-check_lockout now later k t (omega (arith, count)) in
    ap (check_lockout later k) (record_all-full times k _ (omega (arith, kept, count)))
    ∙ checked
    ∙ ap
        (λ c.
          if leb 5 (suc c) && ltb later (now + backoff (suc c)) then err handshake_error else ok tt)
        count
