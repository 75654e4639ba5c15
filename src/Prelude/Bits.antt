-- ===== src/Prelude/Bits.antt =====
-- Bits of natural numbers: the digit equations of the native operations, and what they give for
-- `&`, `|`, `^` and `<<` at every width.
use Prim.Native.Nat.{
  ℕ, zero, suc, ◌+◌, ◌-◌, ◌*◌, ◌/◌, ◌%◌, ◌^◌, ◌≤◌, ◌<◌, min, max, bit_and, bit_or, bit_xor, digits,
  bitwise, differ, bit_and-bitwise, bit_or-bitwise, bit_xor-bitwise,
}
use mathlib.Core.Path.{◌≡◌, refl, ap, ap₂, sym, ◌∙◌}
use native.Mathlib.Nat.{pow-suc, one-le-pow}
use native.Mathlib.Omega.{arith}

-- More fuel than the first number has digits changes nothing.
module _ (z : ℕ → ℕ) (f : ℕ → ℕ → ℕ) where
  digits-suc_fuel : (n a b : ℕ) → a ≤ n → digits z f (suc n) a b ≡ digits z f n a b
  digits-suc_fuel zero zero b h = refl
  digits-suc_fuel zero (suc a) b h = absurd (omega arith)
  digits-suc_fuel (suc n) zero b h = refl
  digits-suc_fuel (suc n) (suc a) b h =
      ap (λ t. t * 2 + f (suc a % 2) (b % 2)) (digits-suc_fuel n (suc a / 2) (b / 2) (omega arith))

  digits-more : (k a b n : ℕ) → n ≡ k + a → digits z f n a b ≡ bitwise z f a b
  digits-more zero a b n e = ap (λ t. digits z f t a b) (omega arith)
  digits-more (suc k) a b n e =
      ap (λ t. digits z f t a b) {y = suc (k + a)} (omega arith)
      ∙ digits-suc_fuel (k + a) a b (omega arith)
      ∙ digits-more k a b (k + a) refl

  bitwise-digit :
      (a b : ℕ)
      → bitwise z f (suc a) b ≡ bitwise z f (suc a / 2) (b / 2) * 2 + f (suc a % 2) (b % 2)
  bitwise-digit a b =
      ap (λ t. t * 2 + f (suc a % 2) (b % 2))
        (digits-more (a - suc a / 2) (suc a / 2) (b / 2) a (omega arith))

pub bit_and-digit : (a b : ℕ) → bit_and a b ≡ bit_and (a / 2) (b / 2) * 2 + min (a % 2) (b % 2)
bit_and-digit zero b = omega (arith, bit_and-bitwise 0 b, bit_and-bitwise 0 (b / 2))
bit_and-digit (suc a) b = simp bit_and-bitwise (bitwise-digit (λ _. zero) min a b)

pub bit_or-digit : (a b : ℕ) → bit_or a b ≡ bit_or (a / 2) (b / 2) * 2 + max (a % 2) (b % 2)
bit_or-digit zero b = omega (arith, bit_or-bitwise 0 b, bit_or-bitwise 0 (b / 2))
bit_or-digit (suc a) b = simp bit_or-bitwise (bitwise-digit (λ y. y) max a b)

pub bit_xor-digit : (a b : ℕ) → bit_xor a b ≡ bit_xor (a / 2) (b / 2) * 2 + differ (a % 2) (b % 2)
bit_xor-digit zero b = omega (arith, bit_xor-bitwise 0 b, bit_xor-bitwise 0 (b / 2))
bit_xor-digit (suc a) b = simp bit_xor-bitwise (bitwise-digit (λ y. y) differ a b)

-- Bit `i` of a number, lowest first: 0 or 1.
unfoldable pub bit : ℕ → ℕ → ℕ
bit x zero = x % 2
bit x (suc i) = bit (x / 2) i

pub bit-lt : (x i : ℕ) → bit x i < 2
unfolding bit
bit-lt x zero = omega arith
bit-lt x (suc i) = bit-lt (x / 2) i

differ-lt : (x y : ℕ) → x < 2 → y < 2 → differ x y < 2
differ-lt zero y p q = q
differ-lt (suc zero) zero p q = omega arith
differ-lt (suc zero) (suc y) p q = omega arith
differ-lt (suc (suc x)) y p q = absurd (omega arith)

differ-differ : (x y : ℕ) → x < 2 → y < 2 → differ (differ x y) y ≡ x
differ-differ zero zero p q = refl
differ-differ zero (suc zero) p q = refl
differ-differ zero (suc (suc y)) p q = absurd (omega arith)
differ-differ (suc zero) zero p q = refl
differ-differ (suc zero) (suc zero) p q = refl
differ-differ (suc zero) (suc (suc y)) p q = absurd (omega arith)
differ-differ (suc (suc x)) y p q = absurd (omega arith)

pub bit-bit_and : (i a b : ℕ) → bit (bit_and a b) i ≡ min (bit a i) (bit b i)
unfolding bit
bit-bit_and zero a b = omega (arith, bit_and-digit a b)
bit-bit_and (suc i) a b =
    ap (λ t. bit t i) (omega (arith, bit_and-digit a b)) ∙ bit-bit_and i (a / 2) (b / 2)

pub bit-bit_or : (i a b : ℕ) → bit (bit_or a b) i ≡ max (bit a i) (bit b i)
unfolding bit
bit-bit_or zero a b = omega (arith, bit_or-digit a b)
bit-bit_or (suc i) a b =
    ap (λ t. bit t i) (omega (arith, bit_or-digit a b)) ∙ bit-bit_or i (a / 2) (b / 2)

pub bit-bit_xor : (i a b : ℕ) → bit (bit_xor a b) i ≡ differ (bit a i) (bit b i)
unfolding bit
bit-bit_xor zero a b =
    omega (arith, bit_xor-digit a b, differ-lt (a % 2) (b % 2) (omega arith) (omega arith))
bit-bit_xor (suc i) a b =
    ap (λ t. bit t i)
      (omega (arith, bit_xor-digit a b, differ-lt (a % 2) (b % 2) (omega arith) (omega arith)))
    ∙ bit-bit_xor i (a / 2) (b / 2)

-- A number below `2 ^ k` has no bit `k`, and one with bit `k` is at least `2 ^ k`.
pub bit_above : (k x : ℕ) → x < 2 ^ k → bit x k ≡ 0
unfolding bit
bit_above zero x h = omega arith
bit_above (suc k) x h = bit_above k (x / 2) (omega (arith, pow-suc 2 k))

pub bit_xor-lt : (k a b : ℕ) → a < 2 ^ k → b < 2 ^ k → bit_xor a b < 2 ^ k
bit_xor-lt zero zero zero p q = omega (arith, bit_xor-bitwise 0 0)
bit_xor-lt zero zero (suc b) p q = absurd (omega arith)
bit_xor-lt zero (suc a) b p q = absurd (omega arith)
bit_xor-lt (suc k) a b p q = omega (
  arith,
  bit_xor-digit a b,
  pow-suc 2 k,
  differ-lt (a % 2) (b % 2) (omega arith) (omega arith),
  bit_xor-lt k (a / 2) (b / 2) (omega (arith, pow-suc 2 k)) (omega (arith, pow-suc 2 k)),
)

pub bit_xor-bit_xor : (k a b : ℕ) → a < 2 ^ k → b < 2 ^ k → bit_xor (bit_xor a b) b ≡ a
bit_xor-bit_xor zero zero zero p q = refl
bit_xor-bit_xor zero zero (suc b) p q = absurd (omega arith)
bit_xor-bit_xor zero (suc a) b p q = absurd (omega arith)
bit_xor-bit_xor (suc k) a b p q =
    bit_xor-digit (bit_xor a b) b
    ∙ ap₂ (λ s t. bit_xor s (b / 2) * 2 + differ t (b % 2)) high low
    ∙ omega (
      arith,
      bit_xor-bit_xor k (a / 2) (b / 2) (omega (arith, pow-suc 2 k)) (omega (arith, pow-suc 2 k)),
      differ-differ (a % 2) (b % 2) (omega arith) (omega arith),
    )
  where
    high : bit_xor a b / 2 ≡ bit_xor (a / 2) (b / 2)
    high = omega (arith, bit_xor-digit a b, differ-lt (a % 2) (b % 2) (omega arith) (omega arith))

    low : bit_xor a b % 2 ≡ differ (a % 2) (b % 2)
    low = omega (arith, bit_xor-digit a b, differ-lt (a % 2) (b % 2) (omega arith) (omega arith))

-- What `^` with a fixed number does can be undone.
pub bit_xor_cancel :
    (k a b c : ℕ) → a < 2 ^ k → b < 2 ^ k → c < 2 ^ k → bit_xor a c ≡ bit_xor b c → a ≡ b
bit_xor_cancel k a b c p q r e =
    sym (bit_xor-bit_xor k a c p r) ∙ ap (λ t. bit_xor t c) e ∙ bit_xor-bit_xor k b c q r

differ_comm : (x y : ℕ) → differ x y ≡ differ y x
differ_comm zero zero = refl
differ_comm zero (suc y) = refl
differ_comm (suc x) zero = refl
differ_comm (suc x) (suc y) = differ_comm x y

bit_xor_comm_below : (n a b : ℕ) → a ≤ n → b ≤ n → bit_xor a b ≡ bit_xor b a
bit_xor_comm_below zero zero zero p q = refl
bit_xor_comm_below zero zero (suc b) p q = absurd (omega arith)
bit_xor_comm_below zero (suc a) b p q = absurd (omega arith)
bit_xor_comm_below (suc n) a b p q = omega (
  arith,
  bit_xor-digit a b,
  bit_xor-digit b a,
  bit_xor_comm_below n (a / 2) (b / 2) (omega arith) (omega arith),
  differ_comm (a % 2) (b % 2),
)

pub bit_xor_comm : (a b : ℕ) → bit_xor a b ≡ bit_xor b a
bit_xor_comm a b = bit_xor_comm_below (a + b) a b (omega arith) (omega arith)

-- The bits of a shifted number, of a power of two and of a mask of ones.
pub bit-shift_low : (s x i : ℕ) → i < s → bit (x * 2 ^ s) i ≡ 0
unfolding bit
bit-shift_low zero x i h = absurd (omega arith)
bit-shift_low (suc s) x zero h = omega (arith, ap (λ (t : ℕ). x * t) (pow-suc 2 s))
bit-shift_low (suc s) x (suc i) h =
    ap (λ t. bit t i) (omega (arith, ap (λ (t : ℕ). x * t) (pow-suc 2 s)))
    ∙ bit-shift_low s x i (omega arith)

pub bit-shift : (s x i j : ℕ) → j ≡ s + i → bit (x * 2 ^ s) j ≡ bit x i
unfolding bit
bit-shift zero x i j e =
    let p : x * 2 ^ 0 ≡ x = omega arith in
    let q : j ≡ i = omega arith in ap (λ t. bit t j) p ∙ ap (bit x) q
bit-shift (suc s) x i zero e = absurd (omega arith)
bit-shift (suc s) x i (suc j) e =
    let p : x * 2 ^ suc s / 2 ≡ x * 2 ^ s = omega (arith, ap (λ (t : ℕ). x * t) (pow-suc 2 s)) in
    ap (λ t. bit t j) p ∙ bit-shift s x i j (omega arith)

pub bit-zero : (i : ℕ) → bit 0 i ≡ 0
unfolding bit
bit-zero zero = refl
bit-zero (suc i) = bit-zero i

pub bit-one_suc : (i : ℕ) → bit 1 (suc i) ≡ 0
unfolding bit
bit-one_suc i = bit-zero i

pub bit-pow_self : (k : ℕ) → bit (2 ^ k) k ≡ 1
unfolding bit
bit-pow_self zero = refl
bit-pow_self (suc k) = ap (λ t. bit t k) (omega (arith, pow-suc 2 k)) ∙ bit-pow_self k

pub bit-pow_ne : (k i : ℕ) → ¬ (k ≡ i) → bit (2 ^ k) i ≡ 0
unfolding bit
bit-pow_ne zero zero h = absurd (h refl)
bit-pow_ne zero (suc i) h = bit-zero i
bit-pow_ne (suc k) zero h = omega (arith, pow-suc 2 k)
bit-pow_ne (suc k) (suc i) h =
    ap (λ t. bit t i) (omega (arith, pow-suc 2 k)) ∙ bit-pow_ne k i (λ e. h (ap suc e))

pub bit-mask : (k i : ℕ) → i < k → bit (2 ^ k - 1) i ≡ 1
unfolding bit
bit-mask zero i h = absurd (omega arith)
bit-mask (suc k) zero h = omega (arith, pow-suc 2 k, one-le-pow k 2 (omega arith))
bit-mask (suc k) (suc i) h =
    ap (λ t. bit t i) (omega (arith, pow-suc 2 k, one-le-pow k 2 (omega arith)))
    ∙ bit-mask k i (omega arith)

bit_and-none : (n x : ℕ) → x ≤ n → bit_and x 0 ≡ 0
bit_and-none n zero h = bit_and-bitwise 0 0
bit_and-none zero (suc x) h = absurd (omega arith)
bit_and-none (suc n) (suc x) h =
    omega (arith, bit_and-digit (suc x) 0, bit_and-none n (suc x / 2) (omega arith))

-- `x & (1 << k)` is zero exactly when bit `k` of `x` is.
pub bit_and-pow : (k x : ℕ) → bit_and x (2 ^ k) ≡ bit x k * 2 ^ k
unfolding bit
bit_and-pow zero x = omega (arith, bit_and-digit x 1, bit_and-none (x / 2) (x / 2) (omega arith))
bit_and-pow (suc k) x = grind (
  arith,
  bit_and-digit x (2 ^ suc k),
  pow-suc 2 k,
  bit_and-pow k (x / 2),
  ap (λ (t : ℕ). bit (x / 2) k * t) (pow-suc 2 k),
)
