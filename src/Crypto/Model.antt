-- ===== src/Crypto/Model.antt =====
-- Concrete primitives that meet the assumptions, for the examples. They keep nothing secret.
use usmp_python.Prelude.{
  ℕ, ◌+◌, ◌-◌, ◌%◌, ◌≡◌, refl, sym, ap, ◌∙◌, not, [], ◌∷◌, ◌++◌, arith, ◌==◌, if◌then◌else◌, length,
  take, drop, replicate, length-replicate, length-append, take-append, drop-append,
  take-append-drop, bytes_eq, bytes_eq_refl, eq_of_bytes_eq, All-append, eq→==, Bool-cases, inl,
  inr, ap₂, subst, suc, zero, ◌<◌,
}
use usmp_python.Errors.{Result, ok, err, value_error, invalid_tag, raise_if}
use usmp_python.Types.{Bytes}
use usmp_python.Bytes.{IsBytes}
use usmp_python.Crypto.{Primitives}
use usmp_python.Crypto.Laws.{IsAead, IsExchange, IsHkdf, IsSized}

abbrev total : Bytes → ℕ
total [] = 0
total (b ∷ bs) = b + total bs

abbrev tag : Bytes → Bytes → Bytes → Bytes → Bytes
tag k n m a = replicate 16 ((total k + total n + total m + total a) % 256)

abbrev pointwise : Bytes → Bytes → Bytes
pointwise [] ys = []
pointwise (x ∷ xs) [] = []
pointwise (x ∷ xs) (y ∷ ys) = (x + y) % 256 ∷ pointwise xs ys

abbrev open_sealed : Bytes → Bytes → Bytes → Bytes → Result Bytes
open_sealed k n c a =
    let m = take (length c - 16) c in
    if bytes_eq (drop (length c - 16) c) (tag k n m a) then ok m else err invalid_tag

-- A key of 32 bytes, made of any bytes.
unfoldable pub fit : ℕ → Bytes → Bytes
fit zero xs = []
fit (suc n) [] = 0 ∷ fit n []
fit (suc n) (x ∷ xs) = x % 256 ∷ fit n xs

fit-length : (n : ℕ) (xs : Bytes) → length (fit n xs) ≡ n
unfolding fit
fit-length zero xs = refl
fit-length (suc n) [] = ap suc (fit-length n [])
fit-length (suc n) (x ∷ xs) = ap suc (fit-length n xs)

fit-IsBytes : (n : ℕ) (xs : Bytes) → IsBytes (fit n xs)
unfolding fit
fit-IsBytes zero xs = tt
fit-IsBytes (suc n) [] = (omega arith, fit-IsBytes n [])
fit-IsBytes (suc n) (x ∷ xs) = (omega arith, fit-IsBytes n xs)

fit-fit : (n : ℕ) (xs : Bytes) → fit n (fit n xs) ≡ fit n xs
unfolding fit
fit-fit zero xs = refl
fit-fit (suc n) [] = ap (λ t. 0 ∷ t) (fit-fit n [])
fit-fit (suc n) (x ∷ xs) = ap₂ ◌∷◌ (omega arith) (fit-fit n xs)

abbrev pub sum_primitives : Primitives
sum_primitives = record {
  public_bytes = λ priv. fit 32 priv;
  exchange = λ a b. ok (pointwise (fit 32 a) (fit 32 b));
  hkdf = λ n salt info secret. ok (replicate n ((total salt + total info + total secret) % 256));
  hmac_sha256 = λ k m. replicate 32 ((total k + total m) % 256);
  aead = λ s k. raise_if (not (length k == 32)) value_error;
  aead_encrypt = λ s k n m a. ok (m ++ tag k n m a);
  aead_decrypt = λ s k n c a. open_sealed k n c a;
}

ok_injective {ℓ} : {A : Type ℓ} {a b : A} → ok a ≡ ok b → a ≡ b
ok_injective h = cc

opens_sealed : (k n m a : Bytes) → open_sealed k n (m ++ tag k n m a) a ≡ ok m
opens_sealed k n m a = rw (
  cut,
  take-append (length m) m (tag k n m a) refl,
  drop-append (length m) m (tag k n m a) refl,
  bytes_eq_refl (tag k n m a),
)
  where
    cut : length (m ++ tag k n m a) - 16 ≡ length m
    cut = omega (arith, length-append m (tag k n m a))

sealed_opened : (k n m c a : Bytes) → open_sealed k n c a ≡ ok m → m ++ tag k n m a ≡ c
sealed_opened k n m c a h =
    elim (Bool-cases (bytes_eq (drop (length c - 16) c) (tag k n (take (length c - 16) c) a))) [
      | inl same ↦
          let e : take (length c - 16) c ≡ m = ok_injective (rw same at h) in
          ap₂ ◌++◌ (sym e) (sym (eq_of_bytes_eq _ _ same ∙ ap (λ t. tag k n t a) e))
          ∙ take-append-drop (length c - 16) c
      | inr other ↦ absurd (fail (rw other at h))
    ]
  where
    fail : err invalid_tag ≡ ok m → ⊥
    fail e = cc

pub sum-IsAead : IsAead sum_primitives
sum-IsAead = record {
  accepts_key = λ s k h. rw (eq→== (length k) 32 h);
  seals = λ s k n m a hk hn. (m ++ tag k n m a, refl);
  sealed_length = λ s k n m a c h. ap length (sym (ok_injective h)) ∙ length-append m (tag k n m a);
  sealed_bytes = λ s k n m a c hn hm h.
      subst IsBytes (ok_injective h) (All-append _ m (tag k n m a) hm (omega arith));
  opens =
      λ s k n m a c h. ap (λ t. open_sealed k n t a) (sym (ok_injective h)) ∙ opens_sealed k n m a;
  authentic = λ s k n m a c h. ap ok (sealed_opened k n m c a h);
}

pointwise_comm : (xs ys : Bytes) → pointwise xs ys ≡ pointwise ys xs
pointwise_comm [] [] = refl
pointwise_comm [] (y ∷ ys) = refl
pointwise_comm (x ∷ xs) [] = refl
pointwise_comm (x ∷ xs) (y ∷ ys) = ap₂ ◌∷◌ (omega arith) (pointwise_comm xs ys)

pub sum-IsExchange : IsExchange sum_primitives
sum-IsExchange = record {
  agrees = λ a b. ap ok (
      ap (pointwise (fit 32 a)) (fit-fit 32 b)
      ∙ pointwise_comm (fit 32 a) (fit 32 b)
      ∙ ap (pointwise (fit 32 b)) (sym (fit-fit 32 a)));
}

replicate-IsBytes : (n b : ℕ) → b < 256 → IsBytes (replicate n b)
replicate-IsBytes zero b h = tt
replicate-IsBytes (suc n) b h = (h, replicate-IsBytes n b h)

pub sum-IsSized : IsSized sum_primitives
sum-IsSized = record {
  public_length = λ a. fit-length 32 a;
  public_is_bytes = λ a. fit-IsBytes 32 a;
  mac_length = λ k m. length-replicate 32 ((total k + total m) % 256);
  mac_is_bytes = λ k m. replicate-IsBytes 32 ((total k + total m) % 256) (omega arith);
}

pub sum-IsHkdf : IsHkdf sum_primitives
sum-IsHkdf = record {
  derives = λ n salt info secret h. (
    replicate n ((total salt + total info + total secret) % 256),
    refl,
    length-replicate n ((total salt + total info + total secret) % 256),
  );
}
