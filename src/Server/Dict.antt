-- ===== src/Server/Dict.antt =====
-- Dictionaries as lists of entries with different keys, by a test of equality on the keys.
use usmp_python.Prelude.{
  ◌+◌, ◌≤◌, ◌≡◌, refl, Bool, true, false, Option, none, some, List, [], ◌∷◌, arith, ap, ◌∙◌, sym,
  if◌then◌else◌, Bool-cases, inl, inr, length, All, true≢false,
}

abbrev pub Dict : Type 0 → Type 0 → Type 0
Dict K A = List (K × A)

-- An equality test that decides equality.
pub record IsEquality {K : Type 0} (eq : K → K → Bool) : Type 0 where
  pub same : (x : K) → eq x x ≡ true
  pub equal : (x y : K) → eq x y ≡ true → x ≡ y

module _ {K A : Type 0} (eq : K → K → Bool) where
  -- `d.get(k)`, `d[k] = a` and `d.pop(k, None)`.
  unfoldable pub get : K → Dict K A → Option A
  get k [] = none
  get k ((x, a) ∷ d) = let rest = get k d in if eq k x then some a else rest

  unfoldable pub put : K → A → Dict K A → Dict K A
  put k a [] = (k, a) ∷ []
  put k a ((x, b) ∷ d) = let rest = put k a d in if eq k x then (x, a) ∷ d else (x, b) ∷ rest

  unfoldable pub pop : K → Dict K A → Dict K A
  pop k [] = []
  pop k ((x, a) ∷ d) = let rest = pop k d in if eq k x then d else (x, a) ∷ rest

  -- No key stands twice.
  unfoldable pub IsUnique : Dict K A → Type 0
  IsUnique [] = Unit
  IsUnique ((x, a) ∷ d) = (get x d ≡ none) × IsUnique d

  module _ (law : IsEquality eq) where
    pub get-put : (k : K) (a : A) (d : Dict K A) → get k (put k a d) ≡ some a
    unfolding get put
    get-put k a [] = simp (law.same k)
    get-put k a ((x, b) ∷ d) = elim (Bool-cases (eq k x)) [
      | inl here ↦ simp (here, here)
      | inr past ↦ simp (past, get-put k a d)
    ]

    pub get-put_other :
        (k k' : K) (a : A) (d : Dict K A) → eq k' k ≡ false → get k' (put k a d) ≡ get k' d
    unfolding get put
    get-put_other k k' a [] h = simp h
    get-put_other k k' a ((x, b) ∷ d) h = elim (Bool-cases (eq k x)) [
      | inl here ↦ simp (here, ap (eq k') (sym (law.equal k x here)) ∙ h)
      | inr past ↦ simp (past, get-put_other k k' a d h)
    ]

    pub put-IsUnique : (k : K) (a : A) (d : Dict K A) → IsUnique d → IsUnique (put k a d)
    unfolding get put IsUnique
    put-IsUnique k a [] u = (refl, tt)
    put-IsUnique k a ((x, b) ∷ d) u = elim (Bool-cases (eq k x)) [
      | inl here ↦ rw here u
      | inr past ↦ rw past (get-put_other k x a d (apart past) ∙ u.0, put-IsUnique k a d u.1)
    ]
      where
        clash : eq k x ≡ false → x ≡ k → ⊥
        clash past e = true≢false (sym (law.same k) ∙ ap (eq k) (sym e) ∙ past)

        apart : eq k x ≡ false → eq x k ≡ false
        apart past = elim (Bool-cases (eq x k)) [
          | inl same ↦ absurd (clash past (law.equal x k same))
          | inr other ↦ other
        ]

    pub get-pop_other : (k k' : K) (d : Dict K A) → eq k' k ≡ false → get k' (pop k d) ≡ get k' d
    unfolding get pop
    get-pop_other k k' [] h = refl
    get-pop_other k k' ((x, b) ∷ d) h = elim (Bool-cases (eq k x)) [
      | inl here ↦ simp (here, ap (eq k') (sym (law.equal k x here)) ∙ h)
      | inr past ↦ simp (past, get-pop_other k k' d h)
    ]

    pub get-pop : (k : K) (d : Dict K A) → IsUnique d → get k (pop k d) ≡ none
    unfolding get pop IsUnique
    get-pop k [] u = refl
    get-pop k ((x, b) ∷ d) u = elim (Bool-cases (eq k x)) [
      | inl here ↦ rw here (ap (λ y. get y d) (law.equal k x here) ∙ u.0)
      | inr past ↦ simp (past, get-pop k d u.1)
    ]

    get-pop-none : (k k' : K) (d : Dict K A) → get k' d ≡ none → get k' (pop k d) ≡ none
    unfolding get pop
    get-pop-none k k' [] h = refl
    get-pop-none k k' ((x, b) ∷ d) h = elim (Bool-cases (eq k x)) [
      | inl here ↦ rw here (ground arith)
      | inr past ↦ elim (Bool-cases (eq k' x)) [
        | inl same ↦ absurd (ground (arith, same))
        | inr other ↦ rw (past, other) (get-pop-none k k' d (ground (arith, other)))
      ]
    ]

    pub pop-IsUnique : (k : K) (d : Dict K A) → IsUnique d → IsUnique (pop k d)
    unfolding get pop IsUnique
    pop-IsUnique k [] u = tt
    pop-IsUnique k ((x, b) ∷ d) u = elim (Bool-cases (eq k x)) [
      | inl here ↦ rw here u.1
      | inr past ↦ rw past (get-pop-none k x d u.0, pop-IsUnique k d u.1)
    ]

  pub length-put : (k : K) (a : A) (d : Dict K A) → length (put k a d) ≤ length d + 1
  unfolding put
  length-put k a [] = omega arith
  length-put k a ((x, b) ∷ d) = elim (Bool-cases (eq k x)) [
    | inl here ↦ rw here (omega arith)
    | inr past ↦ rw past (omega (arith, length-put k a d))
  ]

  pub length-pop : (k : K) (d : Dict K A) → length (pop k d) ≤ length d
  unfolding pop
  length-pop k [] = omega arith
  length-pop k ((x, b) ∷ d) = elim (Bool-cases (eq k x)) [
    | inl here ↦ rw here (omega arith)
    | inr past ↦ rw past (omega (arith, length-pop k d))
  ]

  pub put-put : IsEquality eq → (k : K) (a b : A) (d : Dict K A) → put k a (put k b d) ≡ put k a d
  unfolding put
  put-put law k a b [] = simp (law.same k)
  put-put law k a b ((x, c) ∷ d) = elim (Bool-cases (eq k x)) [
    | inl here ↦ simp (here, here)
    | inr past ↦ simp (past, put-put law k a b d)
  ]

  -- What holds of every entry.
  pub All-put :
      (P : K × A → Type 0) (k : K) (a : A) (d : Dict K A)
      → ((x : K) → eq k x ≡ true → P (x, a))
      → P (k, a)
      → All P d
      → All P (put k a d)
  unfolding put
  All-put P k a [] found new h = (new, tt)
  All-put P k a ((x, b) ∷ d) found new h = elim (Bool-cases (eq k x)) [
    | inl here ↦ rw here (found x here, h.1)
    | inr past ↦ rw past (h.0, All-put P k a d found new h.1)
  ]

  pub All-pop : (P : K × A → Type 0) (k : K) (d : Dict K A) → All P d → All P (pop k d)
  unfolding pop
  All-pop P k [] h = tt
  All-pop P k ((x, b) ∷ d) h = elim (Bool-cases (eq k x)) [
    | inl here ↦ rw here h.1
    | inr past ↦ rw past (h.0, All-pop P k d h.1)
  ]
