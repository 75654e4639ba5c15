-- ===== src/Server/Held.antt =====
-- Dictionaries that lead to the streams of connections over UDP, and what is left of them when a
-- connection ends.
use usmp_python.Prelude.{
  ℕ, ◌≡◌, refl, Option, none, some, List, [], ◌∷◌, ◌++◌, inl, inr, ap, ◌∙◌, sym, subst, Bool-cases,
  ◌==◌, All, All-map, All-zip, Any, Any-left, Any-without, if◌then◌else◌, none≢some,
}
use usmp_python.Server.Dict.{Dict, IsUnique, get, put, pop-IsUnique, All-put, All-pop}
use usmp_python.Server.State.{Addr, addr_eq, Connection}
use usmp_python.Server.Connect.{pop_held}
use usmp_python.Server.Owned.{addr_eq-IsEquality}
use usmp_python.Server.Release.{pop_held-gone}

-- The entry is the stream of a connection, under its address.
abbrev pub LeadsTo : Addr × ℕ → Connection → Type 0
LeadsTo (a, h) x = (x.addr ≡ a) × (x.stream ≡ h)

abbrev pub AllLead : Dict Addr ℕ → List Connection → Type 0
AllLead d live = All (λ e. Any (LeadsTo e) live) d

pub AllLead-left : (d : Dict Addr ℕ) (xs ys : List Connection) → AllLead d xs → AllLead d (xs ++ ys)
AllLead-left d xs ys = All-map _ _ d (λ e. Any-left (LeadsTo e) xs ys)

pub AllLead-put :
    (x : Connection) (d : Dict Addr ℕ) (live : List Connection)
    → Any (LeadsTo (x.addr, x.stream)) live
    → AllLead d live
    → AllLead (put addr_eq x.addr x.stream d) live
AllLead-put x d live here h =
    All-put addr_eq _ x.addr x.stream d
      (λ a same.
        subst (λ b. Any (LeadsTo (b, x.stream)) live) (addr_eq-IsEquality.equal x.addr a same) here)
      here h

-- Each entry of a dictionary is the one that its key leads to.
All-get : (d : Dict Addr ℕ) → IsUnique addr_eq d → All (λ e. get addr_eq e.0 d ≡ some e.1) d
unfolding get IsUnique
All-get [] u = tt
All-get ((a, h) ∷ d) u =
    (simp (addr_eq-IsEquality.same a), All-map _ _ d (λ e k. behind e k) (All-get d u.1))
  where
    behind :
        (e : Addr × ℕ)
        → get addr_eq e.0 d ≡ some e.1
        → (if addr_eq e.0 a then some h else get addr_eq e.0 d) ≡ some e.1
    behind e k = elim (Bool-cases (addr_eq e.0 a)) [
      | inl same ↦ absurd (
          none≢some
            (sym u.0 ∙ ap (λ b. get addr_eq b d) (sym (addr_eq-IsEquality.equal e.0 a same)) ∙ k))
      | inr other ↦ rw other k
    ]

pub pop_held-IsUnique :
    (o : Option ℕ) (x : Connection) (d : Dict Addr ℕ)
    → IsUnique addr_eq d
    → IsUnique addr_eq (pop_held o x d)
pop_held-IsUnique none x d u = u
pop_held-IsUnique (some h) x d u = elim (Bool-cases (h == x.stream)) [
  | inl mine ↦ rw mine (pop-IsUnique addr_eq addr_eq-IsEquality x.addr d u)
  | inr other ↦ rw other u
]

All-pop_held :
    (P : Addr × ℕ → Type 0) (o : Option ℕ) (x : Connection) (d : Dict Addr ℕ)
    → All P d
    → All P (pop_held o x d)
All-pop_held P none x d h = h
All-pop_held P (some k) x d h = elim (Bool-cases (k == x.stream)) [
  | inl mine ↦ rw mine (All-pop addr_eq P x.addr d h)
  | inr other ↦ rw other h
]

-- The end of a connection takes its own entry out, so what is left leads to the others.
pub pop_held-AllLead :
    (x : Connection) (d : Dict Addr ℕ) (xs ys : List Connection)
    → IsUnique addr_eq d
    → AllLead d (xs ++ (x ∷ ys))
    → AllLead (pop_held (get addr_eq x.addr d) x d) (xs ++ ys)
pop_held-AllLead x d xs ys u h =
    All-map _ _ rest (λ e k. Any-without (LeadsTo e) xs ys x (another e k.1) k.0)
      (All-zip _ _ rest (All-pop_held _ (get addr_eq x.addr d) x d h)
        (All-get rest (pop_held-IsUnique (get addr_eq x.addr d) x d u)))
  where
    rest : Dict Addr ℕ
    rest = pop_held (get addr_eq x.addr d) x d

    another : (e : Addr × ℕ) → get addr_eq e.0 rest ≡ some e.1 → ¬ LeadsTo e x
    another e k = λ l.
        pop_held-gone x d (get addr_eq x.addr d) refl u
          (ap (λ a. get addr_eq a rest) l.0 ∙ k ∙ ap some (sym l.1))
