-- ===== src/Window/Seen.antt =====
-- The window against the set of sequence numbers that were accepted.
use usmp_python.Prelude.{
  ℕ, zero, suc, ◌+◌, ◌-◌, ◌*◌, ◌^◌, ◌≤◌, ◌<◌, ◌≡◌, ◌↔◌, refl, ap, ◌∙◌, Bool, true, false, ◌||◌,
  List, [], ◌∷◌, arith, ltb, ◌==◌, bit_and, bit_or, Bool-cases, inl, inr, ltb→lt, lt→ltb,
}
use usmp_python.Prelude.Bits.{
  bit, bit-lt, bit-bit_and, bit-bit_or, bit-shift, bit-shift_low, bit-mask, bit-pow_self,
  bit-pow_ne, bit-one_suc, bit-zero, bit_and-pow,
}
use native.Mathlib.Nat.{one-le-pow}
use usmp_python.Types.{SessionInfo}
use usmp_python.Window.{is_replayed, slide_window, shifted}

-- `seq` is among the numbers accepted so far.
abbrev pub seen : ℕ → List ℕ → Bool
seen seq [] = false
seen seq (s ∷ ss) = seq == s || seen seq ss

abbrev as_bit : Bool → ℕ
as_bit true = 1
as_bit false = 0

-- The window shows the last 64 numbers: bit `k` is set exactly if `rx_seq - k` was accepted, and
-- nothing above `rx_seq` was.
pub record Shows (info : SessionInfo) (ss : List ℕ) : Type 0 where
  pub marks :
      (k : ℕ)
      → k < 64
      → k ≤ info.rx_seq
      → bit info.rx_window_bitmap k ≡ as_bit (seen (info.rx_seq - k) ss)
  pub below : (seq : ℕ) → info.rx_seq < seq → seen seq ss ≡ false

marked : (x k : ℕ) → (bit_and x (2 ^ k) == 0) ≡ (bit x k == 0)
marked x k = ground (arith, bit_and-pow k x, bit-lt x k, one-le-pow k 2)

-- The test before decryption lets a number pass exactly if it was not accepted before and is not
-- more than 63 behind the highest accepted one.
pub is_replayed_iff :
    (info : SessionInfo) (ss : List ℕ) (seq : ℕ)
    → Shows info ss
    → (is_replayed info seq ≡ false) ↔ ((seen seq ss ≡ false) × (info.rx_seq < seq + 64))
unfolding is_replayed
is_replayed_iff info ss seq w = ground (
  arith,
  marked info.rx_window_bitmap (info.rx_seq - seq),
  w.marks (info.rx_seq - seq),
  w.below seq,
)

-- The bits of a shifted window: the new number, the gap, and the old window.
shifted_new : (b shift : ℕ) → bit (shifted b shift) 0 ≡ 1
shifted_new b shift = elim (Bool-cases (ltb shift 64)) [
  | inl near ↦ rw near (
      omega (
        arith,
        bit-bit_or 0 (bit_and (b * 2 ^ shift) 0xffff_ffff_ffff_ffff) 1,
        bit-lt (bit_and (b * 2 ^ shift) 0xffff_ffff_ffff_ffff) 0,
        bit-pow_self 0,
      ))
  | inr far ↦ rw far (bit-pow_self 0)
]

shifted_gap : (b shift k : ℕ) → 0 < k → k < shift → k < 64 → bit (shifted b shift) k ≡ 0
shifted_gap b shift zero p h q = absurd (omega arith)
shifted_gap b shift (suc k) p h q = elim (Bool-cases (ltb shift 64)) [
  | inl near ↦ rw near (
      omega (
        arith,
        bit-bit_or (suc k) (bit_and (b * 2 ^ shift) 0xffff_ffff_ffff_ffff) 1,
        bit-bit_and (suc k) (b * 2 ^ shift) 0xffff_ffff_ffff_ffff,
        bit-shift_low shift b (suc k) h,
        bit-one_suc k,
      ))
  | inr far ↦ rw far (bit-one_suc k)
]

shifted_old :
    (b shift k i : ℕ) → 0 < shift → k ≡ shift + i → k < 64 → bit (shifted b shift) k ≡ bit b i
shifted_old b shift zero i p e q = absurd (omega arith)
shifted_old b shift (suc k) i p e q = rw (lt→ltb shift 64 (omega arith)) (
    omega (
      arith,
      bit-bit_or (suc k) (bit_and (b * 2 ^ shift) 0xffff_ffff_ffff_ffff) 1,
      bit-bit_and (suc k) (b * 2 ^ shift) 0xffff_ffff_ffff_ffff,
      bit-shift shift b i (suc k) e,
      bit-mask 64 (suc k) q,
      bit-one_suc k,
      bit-lt b i,
    ))

module _ (info : SessionInfo) (ss : List ℕ) (seq : ℕ) (w : Shows info ss) where
  ahead_marks :
      (k : ℕ)
      → info.rx_seq < seq
      → k < 64
      → k ≤ seq
      → bit (shifted info.rx_window_bitmap (seq - info.rx_seq)) k
        ≡ as_bit (seen (seq - k) (seq ∷ ss))
  ahead_marks zero ahead near fits =
      ground (arith, shifted_new info.rx_window_bitmap (seq - info.rx_seq))
  ahead_marks (suc k) ahead near fits = elim (Bool-cases (ltb (suc k) (seq - info.rx_seq))) [
    | inl gap ↦
        shifted_gap info.rx_window_bitmap (seq - info.rx_seq) (suc k) (omega arith) (ltb→lt _ _ gap)
          near
        ∙ ground (arith, w.below (seq - suc k))
    | inr old ↦
        shifted_old info.rx_window_bitmap (seq - info.rx_seq) (suc k) (suc k - (seq - info.rx_seq))
          (omega arith) (ground arith) near
        ∙ ground (arith, w.marks (suc k - (seq - info.rx_seq)))
  ]

  behind_marks :
      (k : ℕ)
      → seq ≤ info.rx_seq
      → k < 64
      → k ≤ info.rx_seq
      → bit (bit_or info.rx_window_bitmap (2 ^ (info.rx_seq - seq))) k
        ≡ as_bit (seen (info.rx_seq - k) (seq ∷ ss))
  behind_marks k behind near fits = elim (Bool-cases (k == info.rx_seq - seq)) [
    | inl hit ↦ ground (
      arith,
      bit-bit_or k info.rx_window_bitmap (2 ^ (info.rx_seq - seq)),
      bit-lt info.rx_window_bitmap k,
      (let e : info.rx_seq - seq ≡ k = ground arith in ap (λ t. bit (2 ^ t) k) e),
      bit-pow_self k,
    )
    | inr miss ↦ ground (
      arith,
      bit-bit_or k info.rx_window_bitmap (2 ^ (info.rx_seq - seq)),
      bit-pow_ne (info.rx_seq - seq) k,
      w.marks k,
    )
  ]

  -- A number that was let through is in the window afterwards, and nothing is forgotten.
  pub slide_window-Shows : Shows (slide_window info seq) (seq ∷ ss)
  unfolding slide_window
  slide_window-Shows = elim (Bool-cases (ltb info.rx_seq seq)) [
    | inl ahead ↦ rw ahead (record {
      marks = λ k near fits. ahead_marks k (ltb→lt _ _ ahead) near fits;
      below = λ s above. ground (arith, w.below s);
    })
    | inr behind ↦ rw behind (record {
      marks = λ k near fits. behind_marks k (ground arith) near fits;
      below = λ s above. ground (arith, w.below s);
    })
  ]

-- A session starts, and starts again after a rekey, with nothing accepted.
pub fresh-Shows : (info : SessionInfo) → info.rx_seq ≡ 0 → info.rx_window_bitmap ≡ 0 → Shows info []
fresh-Shows info z e = record {
  marks = λ k near fits. ap (λ b. bit b k) e ∙ bit-zero k;
  below = λ seq above. refl;
}
