-- ===== src/Handshake/Limiter/Table.antt =====
-- The dictionary of the limiter, and its size.
use usmp_python.Prelude.{
  ℕ, suc, ◌-◌, ◌≤◌, ◌≡◌, refl, ap, ◌∙◌, ◌⊎◌, inl, inr, true, false, some, [], ◌∷◌, ltb,
  if◌then◌else◌, bytes_eq, bytes_eq_refl, Bool-cases, length, arith,
}
use usmp_python.Errors.{Result, ok, err}
use usmp_python.Types.{Bytes}
use usmp_python.Handshake.Limiter.{
  Entry, Failures, lookup, has, erase, put, oldest, drop_oldest, is_expired, prune, store,
  record_failed_handshake, recorded, lockout, fails_of,
}

pub lookup-put : (k : Bytes) (v : Entry) (t : Failures) → lookup k (put k v t) ≡ some v
unfolding lookup put
lookup-put k v [] = rw (bytes_eq_refl k)
lookup-put k v ((x, e) ∷ es) = ground (arith, lookup-put k v es, bytes_eq_refl k)

some_injective : {a b : Entry} → some a ≡ some b → a ≡ b
some_injective h = cc

pub lookup-prune :
    (now : ℕ) (k : Bytes) (v : Entry) (t : Failures)
    → is_expired now v ≡ false
    → lookup k t ≡ some v
    → lookup k (prune now t) ≡ some v
unfolding lookup prune
lookup-prune now k v [] h e = e
lookup-prune now k v ((x, w) ∷ es) h e = elim (Bool-cases (bytes_eq k x)) [
  | inl same ↦
      let found : some w ≡ some v = rw same at e in
      let kept : is_expired now w ≡ false = ap (is_expired now) (some_injective found) ∙ h in
      rw (kept, same) found
  | inr other ↦
      let below : lookup k (prune now es) ≡ some v = lookup-prune now k v es h (rw other at e) in
      elim (Bool-cases (is_expired now w)) [
        | inl old ↦ rw old below
        | inr new ↦ rw (new, other) below
      ]
]

put-length :
    (k : Bytes) (v : Entry) (t : Failures)
    → length (put k v t) ≡ (if has k t then length t else suc (length t))
unfolding has put
put-length k v [] = refl
put-length k v ((x, e) ∷ es) = ground (arith, put-length k v es)

prune-length : (now : ℕ) (t : Failures) → length (prune now t) ≤ length t
unfolding prune
prune-length now [] = omega arith
prune-length now ((x, e) ∷ es) = ground (arith, prune-length now es)

erase-length : (k : Bytes) (t : Failures) → has k t ≡ true → suc (length (erase k t)) ≡ length t
unfolding has erase
erase-length k [] h = cc
erase-length k ((x, e) ∷ es) h = ground (arith, erase-length k es)

has_here : (x : Bytes) (e : Entry) (t : Failures) → has x ((x, e) ∷ t) ≡ true
unfolding has
has_here x e t = rw (bytes_eq_refl x)

has_below : (k x : Bytes) (e : Entry) (t : Failures) → has k t ≡ true → has k ((x, e) ∷ t) ≡ true
unfolding has
has_below k x e t h = ground (arith, h)

oldest_cases :
    (k : Bytes) (n : ℕ) (t : Failures) → (oldest k n t ≡ k) ⊎ (has (oldest k n t) t ≡ true)
unfolding oldest
oldest_cases k n [] = inl refl
oldest_cases k n ((x, e) ∷ es) = elim (Bool-cases (ltb e.last_attempt n)) [
  | inl older ↦ rw older (elim (oldest_cases x e.last_attempt es) [
    | inl this ↦ inr (ap (λ y. has y ((x, e) ∷ es)) this ∙ has_here x e es)
    | inr that ↦ inr (has_below (oldest x e.last_attempt es) x e es that)
  ])
  | inr newer ↦ rw newer (elim (oldest_cases k n es) [
    | inl this ↦ inl this
    | inr that ↦ inr (has_below (oldest k n es) x e es that)
  ])
]

drop_oldest-length : (t : Failures) → length (drop_oldest t) ≡ length t - 1
unfolding drop_oldest
drop_oldest-length [] = refl
drop_oldest-length ((k, e) ∷ es) =
    omega (arith, erase-length (oldest k e.last_attempt es) ((k, e) ∷ es) present)
  where
    present : has (oldest k e.last_attempt es) ((k, e) ∷ es) ≡ true
    present = elim (oldest_cases k e.last_attempt es) [
      | inl this ↦ ap (λ y. has y ((k, e) ∷ es)) this ∙ has_here k e es
      | inr that ↦ has_below (oldest k e.last_attempt es) k e es that
    ]

store-length :
    (now : ℕ) (k : Bytes) (v : Entry) (t : Failures)
    → length t ≤ 1000
    → length (store now k v t) ≤ 1000
store-length now k v t h = ground (
  arith,
  prune-length now (put k v (drop_oldest t)),
  prune-length now (put k v t),
  put-length k v (drop_oldest t),
  put-length k v t,
  drop_oldest-length t,
)

recorded-length :
    (now : ℕ) (k : Bytes) (fails : ℕ) (t : Failures) (r : Result ℕ)
    → length t ≤ 1000
    → length (recorded now k fails t r).1 ≤ 1000
recorded-length now k fails t (err e) h = h
recorded-length now k fails t (ok until) h = store-length now k _ t h

-- However many addresses fail, the table never holds more than 1000 entries.
pub record_failed_handshake-length :
    (now : ℕ) (k : Bytes) (t : Failures)
    → length t ≤ 1000
    → length (record_failed_handshake now k t).1 ≤ 1000
unfolding record_failed_handshake
record_failed_handshake-length now k t h =
    let fails = suc (fails_of (lookup k t)) in recorded-length now k fails t (lockout fails now) h
