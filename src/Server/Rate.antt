-- ===== src/Server/Rate.antt =====
-- How many cookies an address gets in a time.
use usmp_python.Prelude.{
  ℕ, suc, ◌+◌, ◌-◌, ◌*◌, ◌≤◌, ◌<◌, ◌≡◌, true, false, some, List, [], ◌∷◌, ◌⊎◌, inl, inr, arith, ltb,
  if◌then◌else◌, length, bytes_eq, Bool-cases, le→ltb,
}
use usmp_python.Types.{Bytes}
use usmp_python.Server.Dict.{get, put, get-put, put-put, length-put}
use usmp_python.Server.State.{Server}
use usmp_python.Server.Bucket.{refilled, or_full, Buckets, allow_udp_cookie}
use usmp_python.Server.Counts.{bytes_eq-IsEquality}

-- Of calls of `_allow_udp_cookie` for one address at these times, how many are allowed.
unfoldable pub allowed : Bytes → List ℕ → Server → ℕ
allowed ip [] s = 0
allowed ip (now ∷ later) s =
    let rest = allowed ip later (allow_udp_cookie now ip s).1 in
    if (allow_udp_cookie now ip s).0 then suc rest else rest

-- Times that do not go back, from a first one, and the last of them.
abbrev pub Ordered : ℕ → List ℕ → Type 0
Ordered t [] = Unit
Ordered t (now ∷ later) = (t ≤ now) × Ordered now later

abbrev pub final : ℕ → List ℕ → ℕ
final t [] = t
final t (now ∷ later) = final now later

-- There is room for an entry of the address.
HasRoom : Bytes → Buckets → Type 0
HasRoom ip d = (b : ℕ × ℕ) → length (put bytes_eq ip b d) ≤ 1000

put-HasRoom :
    (ip : Bytes) (b : ℕ × ℕ) (d : Buckets) → HasRoom ip d → HasRoom ip (put bytes_eq ip b d)
unfolding HasRoom
put-HasRoom ip b d h c = rw (put-put bytes_eq bytes_eq-IsEquality ip c b d) (h c)

module _ (ip : Bytes) (now : ℕ) (s : Server) where
  abbrev tokens : ℕ
  tokens = refilled now (or_full now (get bytes_eq ip s.udp_cookie_rate_limiter))

  abbrev holding : ℕ → Server
  holding n = record s {
    udp_cookie_rate_limiter = put bytes_eq ip (n, now) s.udp_cookie_rate_limiter;
  }

  allow-cases :
      HasRoom ip s.udp_cookie_rate_limiter
      → (allow_udp_cookie now ip s ≡ (false, holding tokens))
        ⊎ ((1000 ≤ tokens) × (allow_udp_cookie now ip s ≡ (true, holding (tokens - 1000))))
  unfolding allow_udp_cookie HasRoom
  allow-cases h = elim (Bool-cases (ltb tokens 1000)) [
    | inl short ↦ inl (simp short)
    | inr enough ↦ inr (
      ground arith,
      simp (
        enough,
        le→ltb (length (put bytes_eq ip (tokens - 1000, now) s.udp_cookie_rate_limiter)) 1000
            (h (tokens - 1000, now)),
      ),
    )
  ]

few_tokens :
    (ip : Bytes) (now n last : ℕ) (s : Server)
    → get bytes_eq ip s.udp_cookie_rate_limiter ≡ some (n, last)
    → tokens ip now s ≤ n + (now - last) * 5
few_tokens ip now n last s e = rw e (omega arith)

-- The tokens of an address and the time since pay for what is allowed.
held-rate :
    (ip : Bytes) (times : List ℕ) (n last : ℕ) (s : Server)
    → get bytes_eq ip s.udp_cookie_rate_limiter ≡ some (n, last)
    → HasRoom ip s.udp_cookie_rate_limiter
    → Ordered last times
    → 1000 * allowed ip times s + 5 * last ≤ n + 5 * final last times
unfolding allowed
held-rate ip [] n last s e h o = omega arith
held-rate ip (now ∷ later) n last s e h o =
    let rest : (m : ℕ)
        → 1000 * allowed ip later (holding ip now s m) + 5 * now ≤ m + 5 * final now later =
      λ m.
        held-rate ip later m now (holding ip now s m)
          (get-put bytes_eq bytes_eq-IsEquality ip (m, now) s.udp_cookie_rate_limiter)
          (put-HasRoom ip (m, now) s.udp_cookie_rate_limiter h) o.1 in
    let few = few_tokens ip now n last s e in
    elim (allow-cases ip now s h) [
      | inl refused ↦ rw refused (omega (arith, few, rest (tokens ip now s), o.0))
      | inr (enough, granted) ↦
          rw granted (omega (arith, few, enough, rest (tokens ip now s - 1000), o.0))
    ]

-- Of any calls for one address, from a first time on and none before another in time, at most ten
-- and five more for each second are allowed, if the table has room for the address.
pub allowed-rate :
    (ip : Bytes) (now : ℕ) (later : List ℕ) (s : Server)
    → length s.udp_cookie_rate_limiter < 1000
    → Ordered now later
    → 1000 * allowed ip (now ∷ later) s ≤ 10000 + 5 * (final now later - now)
unfolding allowed HasRoom
allowed-rate ip now later s room o =
    let h : HasRoom ip s.udp_cookie_rate_limiter =
      λ b. omega (arith, room, length-put bytes_eq ip b s.udp_cookie_rate_limiter) in
    let rest : (m : ℕ)
        → 1000 * allowed ip later (holding ip now s m) + 5 * now ≤ m + 5 * final now later =
      λ m.
        held-rate ip later m now (holding ip now s m)
          (get-put bytes_eq bytes_eq-IsEquality ip (m, now) s.udp_cookie_rate_limiter)
          (put-HasRoom ip (m, now) s.udp_cookie_rate_limiter h) o in
    let full : tokens ip now s ≤ 10000 = omega arith in
    elim (allow-cases ip now s h) [
      | inl refused ↦ rw refused (omega (arith, full, rest (tokens ip now s)))
      | inr (enough, granted) ↦
          rw granted (omega (arith, full, enough, rest (tokens ip now s - 1000)))
    ]
