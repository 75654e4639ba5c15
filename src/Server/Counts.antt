-- ===== src/Server/Counts.antt =====
-- A dictionary of counters counts a list: raising and lowering an entry follow the list.
use usmp_python.Prelude.{
  ℕ, suc, ◌+◌, ◌-◌, ◌≤◌, ◌≡◌, refl, true, false, some, List, [], ◌∷◌, ◌++◌, arith, ap, ◌∙◌, sym,
  if◌then◌else◌, leb, length, bytes_eq, bytes_eq_refl, eq_of_bytes_eq, Bool-cases, Option-cases,
  inl, inr, length-append, leb→le, le→leb, lt→leb, ◌<◌, subst, All,
}
use usmp_python.Types.{Bytes}
use usmp_python.Server.Dict.{
  Dict, IsEquality, IsUnique, get, put, pop, get-put, get-put_other, put-IsUnique, get-pop,
  get-pop_other, pop-IsUnique, All-put, All-pop,
}
use usmp_python.Server.State.{or_zero, count_of, total, lower}

pub bytes_eq-IsEquality : IsEquality bytes_eq
bytes_eq-IsEquality = record { same = bytes_eq_refl; equal = eq_of_bytes_eq }

-- How often an address stands in the list.
unfoldable pub count : Bytes → List Bytes → ℕ
count ip [] = 0
count ip (x ∷ xs) = let rest = count ip xs in if bytes_eq ip x then suc rest else rest

-- The counters have an entry for each address, with the number of its elements, and no others.
pub record Counted (counts : Dict Bytes ℕ) (live : List Bytes) : Type 0 where
  pub unique : IsUnique bytes_eq counts
  pub each : (ip : Bytes) → count_of ip counts ≡ count ip live
  pub whole : total counts ≡ length live
  pub positive : All (λ e. 0 < e.1) counts

-- When nothing is left to count, no entry is left.
pub Counted-nil : (counts : Dict Bytes ℕ) → Counted counts [] → counts ≡ []
Counted-nil [] c = refl
Counted-nil ((x, n) ∷ d) c = absurd (omega (arith, c.whole, c.positive.0))

total-put :
    (k : Bytes) (v : ℕ) (d : Dict Bytes ℕ) → total (put bytes_eq k v d) + count_of k d ≡ total d + v
unfolding get put
total-put k v [] = omega arith
total-put k v ((x, n) ∷ d) = elim (Bool-cases (bytes_eq k x)) [
  | inl here ↦ rw here (omega arith)
  | inr past ↦ rw past (omega (arith, total-put k v d))
]

total-pop : (k : Bytes) (d : Dict Bytes ℕ) → total (pop bytes_eq k d) + count_of k d ≡ total d
unfolding get pop
total-pop k [] = refl
total-pop k ((x, n) ∷ d) = elim (Bool-cases (bytes_eq k x)) [
  | inl here ↦ rw here (omega arith)
  | inr past ↦ rw past (omega (arith, total-pop k d))
]

pub count-split :
    (k ip : Bytes) (xs ys : List Bytes)
    → count k (xs ++ (ip ∷ ys))
      ≡ (if bytes_eq k ip then suc (count k (xs ++ ys)) else count k (xs ++ ys))
unfolding count
count-split k ip [] ys = refl
count-split k ip (x ∷ xs) ys = ground (arith, count-split k ip xs ys)

pub raise-Counted :
    (ip : Bytes) (counts : Dict Bytes ℕ) (live : List Bytes)
    → Counted counts live
    → Counted (put bytes_eq ip (count_of ip counts + 1) counts) (ip ∷ live)
unfolding count
raise-Counted ip counts live c = record {
  unique = put-IsUnique bytes_eq bytes_eq-IsEquality ip (count_of ip counts + 1) counts c.unique;
  each = λ k. elim (Bool-cases (bytes_eq k ip)) [
    | inl here ↦ raised k here (eq_of_bytes_eq k ip here)
    | inr other ↦ rw other (
        ap or_zero
          (get-put_other bytes_eq bytes_eq-IsEquality ip k (count_of ip counts + 1) counts other)
        ∙ c.each k)
  ];
  whole = omega (arith, total-put ip (count_of ip counts + 1) counts, c.whole);
  positive =
      All-put bytes_eq (λ e. 0 < e.1) ip (count_of ip counts + 1) counts (λ x h. omega arith)
        (omega arith) c.positive;
}
  where
    raised :
        (k : Bytes)
        → bytes_eq k ip ≡ true
        → k ≡ ip
        → count_of k (put bytes_eq ip (count_of ip counts + 1) counts)
          ≡ (if bytes_eq k ip then suc (count k live) else count k live)
    raised k here e =
        rw (here, e)
          (ap or_zero (get-put bytes_eq bytes_eq-IsEquality ip (count_of ip counts + 1) counts)
            ∙ omega (arith, c.each ip))

lower-pop :
    (ip : Bytes) (counts : Dict Bytes ℕ) (n : ℕ)
    → get bytes_eq ip counts ≡ some n
    → n ≤ 1
    → lower ip counts ≡ pop bytes_eq ip counts
unfolding lower
lower-pop ip counts n e h = simp (e, le→leb n 1 h)

lower-put :
    (ip : Bytes) (counts : Dict Bytes ℕ) (n : ℕ)
    → get bytes_eq ip counts ≡ some n
    → 1 < n
    → lower ip counts ≡ put bytes_eq ip (n - 1) counts
unfolding lower
lower-put ip counts n e h = simp (e, lt→leb 1 n h)

module _ (ip : Bytes) (counts : Dict Bytes ℕ) (xs ys : List Bytes)
    (c : Counted counts (xs ++ (ip ∷ ys))) where
  counted_here : count_of ip counts ≡ suc (count ip (xs ++ ys))
  counted_here = c.each ip ∙ count-split ip ip xs ys ∙ rw (bytes_eq_refl ip) refl

  counted_other : (k : Bytes) → bytes_eq k ip ≡ false → count_of k counts ≡ count k (xs ++ ys)
  counted_other k other = c.each k ∙ count-split k ip xs ys ∙ rw other refl

  length-split : length (xs ++ (ip ∷ ys)) ≡ suc (length (xs ++ ys))
  length-split = omega (arith, length-append xs (ip ∷ ys), length-append xs ys)

  pop-Counted :
      (n : ℕ)
      → get bytes_eq ip counts ≡ some n
      → n ≤ 1
      → Counted (pop bytes_eq ip counts) (xs ++ ys)
  pop-Counted n e h = record {
    unique = pop-IsUnique bytes_eq bytes_eq-IsEquality ip counts c.unique;
    each = λ k. elim (Bool-cases (bytes_eq k ip)) [
      | inl here ↦ subst Each (sym (eq_of_bytes_eq k ip here)) gone
      | inr other ↦
          ap or_zero (get-pop_other bytes_eq bytes_eq-IsEquality ip k counts other)
          ∙ counted_other k other
    ];
    whole = omega (arith, total-pop ip counts, c.whole, length-split, ap or_zero e, counted_here);
    positive = All-pop bytes_eq (λ e'. 0 < e'.1) ip counts c.positive;
  }
    where
      Each : Bytes → Type 0
      Each k = count_of k (pop bytes_eq ip counts) ≡ count k (xs ++ ys)

      gone : count_of ip (pop bytes_eq ip counts) ≡ count ip (xs ++ ys)
      gone =
          ap or_zero (get-pop bytes_eq bytes_eq-IsEquality ip counts c.unique)
          ∙ omega (arith, ap or_zero e, counted_here)

  put-Counted :
      (n : ℕ)
      → get bytes_eq ip counts ≡ some n
      → 1 < n
      → Counted (put bytes_eq ip (n - 1) counts) (xs ++ ys)
  put-Counted n e h = record {
    unique = put-IsUnique bytes_eq bytes_eq-IsEquality ip (n - 1) counts c.unique;
    each = λ k. elim (Bool-cases (bytes_eq k ip)) [
      | inl here ↦ subst Each (sym (eq_of_bytes_eq k ip here)) less
      | inr other ↦
          ap or_zero (get-put_other bytes_eq bytes_eq-IsEquality ip k (n - 1) counts other)
          ∙ counted_other k other
    ];
    whole =
        omega
          (arith, total-put ip (n - 1) counts, c.whole, length-split, ap or_zero e, counted_here);
    positive =
        All-put bytes_eq (λ e'. 0 < e'.1) ip (n - 1) counts (λ x k. omega arith) (omega arith)
          c.positive;
  }
    where
      Each : Bytes → Type 0
      Each k = count_of k (put bytes_eq ip (n - 1) counts) ≡ count k (xs ++ ys)

      less : count_of ip (put bytes_eq ip (n - 1) counts) ≡ count ip (xs ++ ys)
      less =
          ap or_zero (get-put bytes_eq bytes_eq-IsEquality ip (n - 1) counts)
          ∙ omega (arith, ap or_zero e, counted_here)

  pub lower-Counted : Counted (lower ip counts) (xs ++ ys)
  lower-Counted = elim (Option-cases (get bytes_eq ip counts)) [
    | inl e ↦ absurd (omega (arith, ap or_zero e, counted_here))
    | inr (n, e) ↦ elim (Bool-cases (leb n 1)) [
      | inl last ↦
          rw (lower-pop ip counts n e (leb→le n 1 last)) (pop-Counted n e (leb→le n 1 last))
      | inr more ↦ rw (lower-put ip counts n e (ground arith)) (put-Counted n e (ground arith))
    ]
  ]
