-- ===== src/Session/Nonce.antt =====
-- No key is ever used twice with the same sequence number, which is what the nonce is made of:
-- over any calls of the sending side, whatever the writes come to.
use usmp_python.Prelude.{
  ℕ, ◌+◌, ◌≤◌, ◌<◌, ◌≡◌, refl, sym, ◌∙◌, ◌⊎◌, inl, inr, Bool, true, false, List, [], ◌∷◌, arith,
  min, All,
}
use mathlib.Core.Path.{subst₂}
use usmp_python.Types.{Bytes, PacketType, SessionInfo}
use usmp_python.Crypto.{Primitives}
use usmp_python.Session.State.{Session}
use usmp_python.Session.Send.{max_seq, is_bye, write, send_encrypted_locked}

pub All-weaken {ℓ κ μ} :
    {A : Type ℓ} {P : A → Type κ} {Q : A → Type μ} (xs : List A)
    → ((a : A) → P a → Q a)
    → All P xs
    → All Q xs
All-weaken [] f h = tt
All-weaken (x ∷ xs) f h = (f x h.0, All-weaken xs f h.1)

-- No pair of a key and a number stands twice in the list.
abbrev pub NoReuse : List (Bytes × ℕ) → Type 0
NoReuse [] = Unit
NoReuse (e ∷ es) = All (λ d. (d.0 ≡ e.0) × (d.1 ≡ e.1) → ⊥) es × NoReuse es

-- Under the key in use only numbers below the next one were used, but for the last number of all,
-- which a BYE may have taken.
abbrev pub Behind : Bytes → ℕ → Bool → Bytes × ℕ → Type 0
Behind key next spent e = e.0 ≡ key → (e.1 < next) ⊎ ((e.1 ≡ max_seq) × (spent ≡ true))

pub record Counts (key : Bytes) (next : ℕ) (spent : Bool) (seals : List (Bytes × ℕ)) : Type 0 where
  pub capped : next ≤ max_seq
  pub behind : All (Behind key next spent) seals
  pub no_reuse : NoReuse seals

-- One more number is used.
module _ (key : Bytes) (next : ℕ) (seals : List (Bytes × ℕ)) where
  Behind-after :
      (spent spent' : Bool)
      → next ≤ max_seq
      → (spent ≡ true → spent' ≡ true)
      → (e : Bytes × ℕ) → Behind key next spent e
      → Behind key (min (next + 1) max_seq) spent' e
  Behind-after spent spent' cap keep e b same = grind (arith, b same)

  fresh_number :
      (spent : Bool)
      → (next < max_seq) ⊎ (spent ≡ false)
      → (e : Bytes × ℕ) → Behind key next spent e
      → (e.0 ≡ key) × (e.1 ≡ next)
      → ⊥
  fresh_number spent room e b (same, n) = grind (arith, b same)

  count_one :
      (spent spent' : Bool)
      → (spent ≡ true → spent' ≡ true)
      → (next < max_seq) ⊎ (spent ≡ false)
      → (next < max_seq) ⊎ (spent' ≡ true)
      → Counts key next spent seals
      → Counts key (min (next + 1) max_seq) spent' ((key, next) ∷ seals)
  count_one spent spent' keep room room' c = record {
    capped = omega arith;
    behind = (
      λ same. grind (arith, c.capped, room'),
      All-weaken seals (Behind-after spent spent' c.capped keep) c.behind,
    );
    no_reuse = (All-weaken seals (fresh_number spent room) c.behind, c.no_reuse);
  }

abbrev pub SessionCounts : Bool → Session → Type 0
SessionCounts spent s = Counts s.info.tx_key s.info.tx_seq spent s.seals

module _ (p : Primitives) where
  -- What a call of `_send_encrypted_locked` does to what is counted: nothing, or one number is
  -- used, and then it is below the last one or for a BYE.
  pub sealed_cases :
      (t : PacketType) (m : Bytes) (s : Session)
      → let s' = (send_encrypted_locked p t m s).1 in
        ((s'.seals ≡ s.seals) × (s'.info ≡ s.info) × (s'.closed ≡ s.closed))
        ⊎ ((s'.seals ≡ (s.info.tx_key, s.info.tx_seq) ∷ s.seals)
            × (s'.info ≡ record s.info { tx_seq = min (s.info.tx_seq + 1) max_seq })
            × (s'.closed ≡ s.closed)
            × ((s.info.tx_seq < max_seq) ⊎ (is_bye t ≡ true)))
  unfolding send_encrypted_locked write
  sealed_cases t m s = ground arith

  Counts-by :
      (info : SessionInfo) (seals : List (Bytes × ℕ)) (spent : Bool) (s : Session)
      → s.info ≡ info
      → s.seals ≡ seals
      → Counts info.tx_key info.tx_seq spent seals
      → SessionCounts spent s
  Counts-by info seals spent s e f c =
      subst₂ (λ (i : SessionInfo) ss. Counts i.tx_key i.tx_seq spent ss) (sym e) (sym f) c

  -- Any packet but a BYE.
  pub seal-Counts :
      (t : PacketType) (m : Bytes) (spent : Bool) (s : Session)
      → is_bye t ≡ false
      → SessionCounts spent s
      → SessionCounts spent (send_encrypted_locked p t m s).1
        × ((send_encrypted_locked p t m s).1.closed ≡ s.closed)
  seal-Counts t m spent s other c = elim (sealed_cases t m s) [
    | inl (f, e, k) ↦ (Counts-by s.info s.seals spent (send_encrypted_locked p t m s).1 e f c, k)
    | inr (f, e, k, inl room) ↦ (
      Counts-by _ _ spent (send_encrypted_locked p t m s).1 e f (
          count_one s.info.tx_key s.info.tx_seq s.seals spent spent (λ h. h) (inl room) (inl room)
            c),
      k,
    )
    | inr (f, e, k, inr b) ↦ absurd (clash (sym other ∙ b))
  ]
    where
      clash : false ≡ true → ⊥
      clash h = cc

  -- A BYE, where none has taken the last number yet.
  pub bye-Counts :
      (m : Bytes) (s : Session)
      → SessionCounts false s
      → SessionCounts true (send_encrypted_locked p PacketType.bye m s).1
        × ((send_encrypted_locked p PacketType.bye m s).1.closed ≡ s.closed)
  bye-Counts m s c = elim (sealed_cases PacketType.bye m s) [
    | inl (f, e, k) ↦ (
      Counts-by s.info s.seals true (send_encrypted_locked p PacketType.bye m s).1 e f (weaken c),
      k,
    )
    | inr (f, e, k, _) ↦ (
      Counts-by _ _ true (send_encrypted_locked p PacketType.bye m s).1 e f (
          count_one s.info.tx_key s.info.tx_seq s.seals false true (λ h. refl) (inr refl) (inr refl)
            c),
      k,
    )
  ]
    where
      weaken : SessionCounts false s → SessionCounts true s
      weaken d = record {
        capped = d.capped;
        behind = All-weaken s.seals (λ a b same. grind (arith, b same)) d.behind;
        no_reuse = d.no_reuse;
      }
