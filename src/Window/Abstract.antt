-- ===== src/Window/Abstract.antt =====
-- The window as the set of the numbers accepted so far: a quotient of the lists of them, in which the
-- order of arrival is forgotten.
use mathlib.Core.Logic.{∥∥₁_elim}
use mathlib.Core.Quot
use mathlib.Core.Quot.{Quot, Quot-set}
use native.Mathlib.Nat.{ℕ_set}
use usmp_python.Prelude.{
  ℕ, ◌+◌, ◌≤◌, ◌≡◌, refl, sym, ap, ◌∙◌, Bool, true, not, ◌&&◌, ◌||◌, List, [], ◌∷◌, arith, ltb,
  ◌==◌, Bool-cases, inl, inr, if◌then◌else◌,
}
use usmp_python.Types.{SessionInfo}
use usmp_python.Window.{is_replayed, slide_window}
use usmp_python.Window.Seen.{seen, Shows, is_replayed_iff, slide_window-Shows, fresh-Shows}

-- The highest number, 0 if there is none.
abbrev pub highest : List ℕ → ℕ
highest [] = 0
highest (s ∷ ss) = if ltb (highest ss) s then s else highest ss

abbrev pub SameNumbers : List ℕ → List ℕ → Type 0
SameNumbers xs ys = (n : ℕ) → seen n xs ≡ seen n ys

seen-le : (n : ℕ) (ss : List ℕ) → seen n ss ≡ true → n ≤ highest ss
seen-le n [] h = absurd (ground (arith, h))
seen-le n (s ∷ ss) h = ground (arith, seen-le n ss)

highest-le : (ss : List ℕ) (m : ℕ) → ((n : ℕ) → seen n ss ≡ true → n ≤ m) → highest ss ≤ m
highest-le [] m h = omega arith
highest-le (s ∷ ss) m h =
    let here : s ≤ m = h s (ground arith) in
    let later = highest-le ss m (λ n k. h n (ground (arith, k))) in ground (arith, here, later)

pub highest-same : (xs ys : List ℕ) → SameNumbers xs ys → highest xs ≡ highest ys
highest-same xs ys h =
    let up = highest-le xs (highest ys) (λ n k. seen-le n ys (sym (h n) ∙ k)) in
    let down = highest-le ys (highest xs) (λ n k. seen-le n xs (h n ∙ k)) in omega (arith, up, down)

abbrev pub Accepted : Type 0
Accepted = Quot SameNumbers

pub Bool-IsSet : IsSet Bool
Bool-IsSet = hlevel

unfoldable pub contains : ℕ → Accepted → Bool
contains n = Quot.lift Bool-IsSet (seen n) (λ xs ys h. h n)

unfoldable pub top : Accepted → ℕ
top = Quot.lift ℕ_set highest highest-same

pub SameNumbers-cons : (x : ℕ) (xs ys : List ℕ) → SameNumbers xs ys → SameNumbers (x ∷ xs) (x ∷ ys)
SameNumbers-cons x xs ys h n = ap (λ b. n == x || b) (h n)

unfoldable pub add : ℕ → Accepted → Accepted
add x =
    Quot.lift Quot-set (λ xs. Quot.mk (x ∷ xs)) (λ xs ys h. Quot.sound (SameNumbers-cons x xs ys h))

-- The specification of the test: the number was not accepted and is less than 64 behind the highest.
abbrev pub passes : ℕ → Accepted → Bool
passes n a = not (contains n a) && ltb (top a) (n + 64)

-- The order in which two numbers are accepted is forgotten.
add_comm : (x y : ℕ) (a : Accepted) → add x (add y a) ≡ add y (add x a)
unfolding add
add_comm x y = Quot.ind (λ a. Quot-set _ _) (λ xs. Quot.sound (λ n. ground arith))

-- The counters show a set of numbers if they show some list of it.
abbrev pub Implements : SessionInfo → Accepted → Type 0
Implements info a =
    ∥ ((ss : List ℕ) × (Quot.mk ss ≡ a) × Shows info ss × (info.rx_seq ≡ highest ss)) ∥₁

tested :
    (info : SessionInfo) (ss : List ℕ) (n : ℕ)
    → Shows info ss
    → info.rx_seq ≡ highest ss
    → is_replayed info n ≡ not (passes n (Quot.mk ss))
unfolding contains top
tested info ss n w e = elim (Bool-cases (is_replayed info n)) [
  | inl replayed ↦ ground (arith, is_replayed_iff info ss n w)
  | inr fresh ↦ ground (arith, is_replayed_iff info ss n w)
]

slid :
    (info : SessionInfo) (ss : List ℕ) (n : ℕ)
    → info.rx_seq ≡ highest ss
    → (slide_window info n).rx_seq ≡ highest (n ∷ ss)
unfolding slide_window
slid info ss n e = ground (arith, e)

-- While the counters show a set of accepted numbers, the test lets exactly the numbers pass that were
-- not accepted and are less than 64 behind the highest; and after the window slid the counters show
-- the set with the new number.
pub slide_window-Implements :
    (info : SessionInfo) (a : Accepted) (n : ℕ)
    → Implements info a
    → (is_replayed info n ≡ not (passes n a)) × Implements (slide_window info n) (add n a)
unfolding add
slide_window-Implements info a n i = (
  ∥∥₁_elim i (Bool-IsSet _ _)
      (λ x. let (ss, e, w, h) = x in tested info ss n w h ∙ ap (λ b. not (passes n b)) e),
  ∥∥₁_elim i (hlevel) (λ x.
      let (ss, e, w, h) = x in
      ∣ (n ∷ ss, ap (add n) e, slide_window-Shows info ss n w, slid info ss n h) ∣₁),
)

-- The window after these numbers were accepted, the last one first.
unfoldable pub slides : List ℕ → SessionInfo → SessionInfo
slides [] info = info
slides (n ∷ ns) info = slide_window (slides ns info) n

slides-Implements :
    (ns : List ℕ) (info : SessionInfo)
    → info.rx_seq ≡ 0
    → info.rx_window_bitmap ≡ 0
    → Implements (slides ns info) (Quot.mk ns)
unfolding slides add
slides-Implements [] info z e = ∣ ([], refl, fresh-Shows info z e, z) ∣₁
slides-Implements (n ∷ ns) info z e =
    (slide_window-Implements (slides ns info) (Quot.mk ns) n (slides-Implements ns info z e)).1

-- What the window lets pass does not depend on the order in which packets arrived: from a fresh window
-- on, two runs that accepted the same numbers refuse the same numbers as replayed or too old.
pub is_replayed-slides :
    (xs ys : List ℕ) (info : SessionInfo) (n : ℕ)
    → SameNumbers xs ys
    → info.rx_seq ≡ 0
    → info.rx_window_bitmap ≡ 0
    → is_replayed (slides xs info) n ≡ is_replayed (slides ys info) n
is_replayed-slides xs ys info n same z e =
    let left =
      (slide_window-Implements (slides xs info) (Quot.mk xs) n (slides-Implements xs info z e)).0 in
    let right =
      (slide_window-Implements (slides ys info) (Quot.mk ys) n (slides-Implements ys info z e)).0 in
    left ∙ ap (λ a. not (passes n a)) (Quot.sound same) ∙ sym right
