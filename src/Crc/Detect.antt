-- ===== src/Crc/Detect.antt =====
-- What the checksum finds: every step of the register can be undone, so two messages that differ
-- in one byte have different checksums.
use usmp_python.Prelude.{
  ℕ, zero, suc, ◌/◌, ◌%◌, ◌<◌, ◌≡◌, ◌≢◌, refl, sym, ap, ◌∙◌, [], ◌∷◌, ◌++◌, arith, bit_and, bit_xor,
  inl, inr, ◌⊎◌,
}
use usmp_python.Prelude.Bits.{
  bit, bit-bit_xor, bit_above, bit_and-pow, bit_xor_cancel, bit_xor-lt, bit_xor_comm,
}
use usmp_python.Types.{Bytes}
use usmp_python.Bytes.{IsBytes}
use usmp_python.Crc.{crc_bit, crc_bits, crc_byte, crc_from, crc16}
use usmp_python.Crc.Range.{crc_bit-lt, crc_byte-lt, crc_from-lt}

low_bit : (c : ℕ) → bit_and c 1 ≡ c % 2
low_bit c = bit_and-pow 0 c ∙ unfold bit in grind arith

crc_bit_even : (c : ℕ) → c % 2 ≡ 0 → crc_bit c ≡ c / 2
unfolding crc_bit
crc_bit_even c h = ground (arith, low_bit c)

crc_bit_odd : (c : ℕ) → c % 2 ≡ 1 → crc_bit c ≡ bit_xor (c / 2) 0xa001
unfolding crc_bit
crc_bit_odd c h = ground (arith, low_bit c)

-- The top bit of the register after a turn is the bit that was shifted out.
top_even : (c : ℕ) → c < 65536 → c % 2 ≡ 0 → bit (crc_bit c) 15 ≡ 0
top_even c h e = ap (λ t. bit t 15) (crc_bit_even c e) ∙ bit_above 15 (c / 2) (omega arith)

top_odd : (c : ℕ) → c < 65536 → c % 2 ≡ 1 → bit (crc_bit c) 15 ≡ 1
unfolding bit
top_odd c h e =
    ap (λ t. bit t 15) (crc_bit_odd c e)
    ∙ bit-bit_xor 15 (c / 2) 0xa001
    ∙ simp (bit_above 15 (c / 2) (omega arith))

parity : (c : ℕ) → (c % 2 ≡ 0) ⊎ (c % 2 ≡ 1)
parity c = grind arith

crc_bit_cancel : (c d : ℕ) → c < 65536 → d < 65536 → crc_bit c ≡ crc_bit d → c ≡ d
crc_bit_cancel c d p q e = cases (parity c) (parity d)
  where
    tops : bit (crc_bit c) 15 ≡ bit (crc_bit d) 15
    tops = ap (λ t. bit t 15) e

    cases : (c % 2 ≡ 0) ⊎ (c % 2 ≡ 1) → (d % 2 ≡ 0) ⊎ (d % 2 ≡ 1) → c ≡ d
    cases (inl u) (inl v) = omega (arith, crc_bit_even c u, crc_bit_even d v)
    cases (inl u) (inr v) = absurd (omega (arith, tops, top_even c p u, top_odd d q v))
    cases (inr u) (inl v) = absurd (omega (arith, tops, top_odd c p u, top_even d q v))
    cases (inr u) (inr v) =
        let halves : c / 2 ≡ d / 2 =
          bit_xor_cancel 16 (c / 2) (d / 2) 0xa001 (omega arith) (omega arith) (omega arith)
            (sym (crc_bit_odd c u) ∙ e ∙ crc_bit_odd d v) in
        omega arith

crc_bits_cancel : (n c d : ℕ) → c < 65536 → d < 65536 → crc_bits n c ≡ crc_bits n d → c ≡ d
unfolding crc_bits
crc_bits_cancel zero c d p q e = e
crc_bits_cancel (suc n) c d p q e =
    crc_bit_cancel c d p q
      (crc_bits_cancel n (crc_bit c) (crc_bit d) (crc_bit-lt c p) (crc_bit-lt d q) e)

-- From equal registers, different bytes lead to different registers, and so the other way round.
crc_byte_cancel :
    (c d a b : ℕ)
    → c < 65536
    → d < 65536
    → a < 256
    → b < 256
    → crc_byte c a ≡ crc_byte d b
    → bit_xor c a ≡ bit_xor d b
unfolding crc_byte
crc_byte_cancel c d a b p q u v e =
    crc_bits_cancel 8 (bit_xor c a) (bit_xor d b) (bit_xor-lt 16 c a p (omega arith))
      (bit_xor-lt 16 d b q (omega arith)) e

crc_from_cancel :
    (c d : ℕ) (bs : Bytes)
    → c < 65536
    → d < 65536
    → IsBytes bs
    → crc_from c bs ≡ crc_from d bs
    → c ≡ d
unfolding crc_from
crc_from_cancel c d [] p q h e = e
crc_from_cancel c d (b ∷ bs) p q h e = bit_xor_cancel 16 c d b p q (omega arith) (
    crc_byte_cancel c d b b p q h.0 h.0 (
      crc_from_cancel (crc_byte c b) (crc_byte d b) bs (crc_byte-lt c b p h.0)
        (crc_byte-lt d b q h.0) h.1 e))

bit_xor_cancel_left :
    (c a b : ℕ) → c < 65536 → a < 256 → b < 256 → bit_xor c a ≡ bit_xor c b → a ≡ b
bit_xor_cancel_left c a b p u v e =
    bit_xor_cancel 16 a b c (omega arith) (omega arith) p (bit_xor_comm a c ∙ e ∙ bit_xor_comm c b)

crc_from-append : (c : ℕ) (xs ys : Bytes) → crc_from c (xs ++ ys) ≡ crc_from (crc_from c xs) ys
unfolding crc_from
crc_from-append c [] ys = refl
crc_from-append c (x ∷ xs) ys = crc_from-append (crc_byte c x) xs ys

-- The checksum determines each byte, once the others are known.
pub byte_determined :
    (xs ys : Bytes) (a b : ℕ)
    → IsBytes xs
    → IsBytes ys
    → a < 256
    → b < 256
    → crc16 (xs ++ a ∷ ys) ≡ crc16 (xs ++ b ∷ ys)
    → a ≡ b
unfolding crc16
byte_determined xs ys a b hx hy u v e = bit_xor_cancel_left c a b p u v (
    crc_byte_cancel c c a b p p u v (
      crc_from_cancel (crc_byte c a) (crc_byte c b) ys (crc_byte-lt c a p u) (crc_byte-lt c b p v)
        hy (sym (crc_from-append 0xffff xs (a ∷ ys)) ∙ e ∙ crc_from-append 0xffff xs (b ∷ ys))))
  where
    c : ℕ
    c = crc_from 0xffff xs

    p : c < 65536
    p = crc_from-lt 0xffff xs (omega arith) hx

-- A change that is confined to one byte of a message, whatever stands around it, changes the
-- checksum.
pub crc16_detects :
    (xs ys : Bytes) (a b : ℕ)
    → IsBytes xs
    → IsBytes ys
    → a < 256
    → b < 256
    → a ≢ b
    → crc16 (xs ++ a ∷ ys) ≢ crc16 (xs ++ b ∷ ys)
crc16_detects xs ys a b hx hy u v ne e = ne (byte_determined xs ys a b hx hy u v e)
