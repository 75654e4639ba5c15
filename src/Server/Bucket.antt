-- ===== src/Server/Bucket.antt =====
-- `_allow_udp_cookie` of src/usmp/_server.py: a bucket of tokens for each source address. Tokens
-- are in thousandths and times in milliseconds, so five tokens a second are five a millisecond.
use usmp_python.Prelude.{
  ℕ, zero, suc, ◌+◌, ◌-◌, ◌*◌, min, Bool, true, false, Option, none, some, [], ◌∷◌, ltb,
  if◌then◌else◌, bytes_eq, length,
}
use usmp_python.Types.{Bytes}
use usmp_python.Server.Dict.{Dict, get, put, pop}
use usmp_python.Server.State.{Server}

abbrev pub Buckets : Type 0
Buckets = Dict Bytes (ℕ × ℕ)

abbrev pub capacity : ℕ
capacity = 10000

-- `min(capacity, tokens + (now - last) * refill_per_sec)`.
abbrev pub refilled : ℕ → ℕ × ℕ → ℕ
refilled now (tokens, last) = min capacity (tokens + (now - last) * 5)

abbrev pub or_full : ℕ → Option (ℕ × ℕ) → ℕ × ℕ
or_full now none = (capacity, now)
or_full now (some b) = b

-- The entries that are not full again.
unfoldable pub active : ℕ → Buckets → Buckets
active now [] = []
active now ((ip, b) ∷ d) =
    let rest = active now d in if ltb (refilled now b) capacity then (ip, b) ∷ rest else rest

-- `sorted(d, key=lambda k: d[k][1])[:n]` is deleted: the first of the oldest, n times.
unfoldable pub oldest_bucket : Bytes → ℕ → Buckets → Bytes
oldest_bucket k t [] = k
oldest_bucket k t ((ip, (n, last)) ∷ d) =
    let newer = oldest_bucket k t d in
    let older = oldest_bucket ip last d in if ltb last t then older else newer

unfoldable pub drop_oldest_buckets : ℕ → Buckets → Buckets
drop_oldest_buckets zero d = d
drop_oldest_buckets (suc n) [] = []
drop_oldest_buckets (suc n) ((ip, (m, last)) ∷ d) =
    drop_oldest_buckets n (pop bytes_eq (oldest_bucket ip last d) ((ip, (m, last)) ∷ d))

abbrev pub bound_buckets : ℕ → Buckets → Buckets
bound_buckets now d =
    if ltb 1000 (length d)
    then (let e = active now d in drop_oldest_buckets (length e - 1000) e)
    else d

unfoldable pub allow_udp_cookie : ℕ → Bytes → Server → Bool × Server
allow_udp_cookie now ip s =
    let tokens = refilled now (or_full now (get bytes_eq ip s.udp_cookie_rate_limiter)) in
    if ltb tokens 1000
    then (
      false,
      record s {
        udp_cookie_rate_limiter = put bytes_eq ip (tokens, now) s.udp_cookie_rate_limiter;
      },
    )
    else (
      true,
      record s {
        udp_cookie_rate_limiter =
            bound_buckets now (put bytes_eq ip (tokens - 1000, now) s.udp_cookie_rate_limiter);
      },
    )
