-- ===== src/Session/Kept.antt =====
-- What each call of the sending side keeps of the counts.
use usmp_python.Prelude.{
  ℕ, zero, suc, ◌≡◌, ◌≢◌, refl, sym, ap, ◌∙◌, inl, inr, Bool, true, false, [], arith, All, take,
  drop, length, Bool-cases, ltb, subst, if◌then◌else◌, ◌*◌,
}
use usmp_python.Errors.{Result, ok, err}
use usmp_python.Types.{Bytes, PacketType}
use usmp_python.Crypto.{Primitives, derive_rekey_keys}
use usmp_python.Session.State.{Session, M, pure, lift, gets, ◌>>=◌}
use usmp_python.Session.Send.{
  send_encrypted_locked, is_bye, send_loop, send, rekey, bye, finish_bye, install_keys,
}
use usmp_python.Session.Nonce.{SessionCounts, seal-Counts, bye-Counts, sealed_cases, All-weaken}

-- The key that a rekey with this salt installs has sealed nothing before.
abbrev pub FreshKey : Primitives → Bytes → Session → Type 0
FreshKey p salt s =
    (tx rx : Bytes)
    → derive_rekey_keys p true s.info.tx_key s.info.rx_key s.info.session_id salt ≡ ok (tx, rx)
    → (s.info.tx_key ≢ tx) × All (λ e. e.0 ≢ tx) s.seals

-- What is kept: the counts, with the last number free until the session is closed.
abbrev pub Kept : Bool → Session → Type 0
Kept spent s = SessionCounts spent s × (s.closed ≡ spent)

-- What holds after each part of a method holds after the method, wherever it raised.
pub bind_keeps :
    {A B : Type 0} (P : Session → Type 0) (f : A → M B) (r : Result A × Session)
    → P r.1
    → ((a : A) (t : Session) → P t → P (f a t).1)
    → P (◌>>=◌ {A = A} {B = B} (λ _. r) f r.1).1
bind_keeps P f (ok a, t) h k = k a t h
bind_keeps P f (err e, t) h k = h

chunk_type :
    (b : Bool) → is_bye (if b then PacketType.data_frag else PacketType.data_packet) ≡ false
chunk_type true = refl
chunk_type false = refl

module _ (p : Primitives) where
  pub seal-Kept :
      (t : PacketType) (m : Bytes) (spent : Bool) (s : Session)
      → is_bye t ≡ false
      → Kept spent s
      → Kept spent (send_encrypted_locked p t m s).1
  seal-Kept t m spent s other h = let (c, k) = seal-Counts p t m spent s other h.0 in (c, k ∙ h.1)

  send_loop-Kept :
      (fuel : ℕ) (rest : Bytes) (spent : Bool) (s : Session)
      → Kept spent s
      → Kept spent (send_loop p fuel rest s).1
  unfolding send_loop
  send_loop-Kept zero rest spent s h = h
  send_loop-Kept (suc fuel) rest spent s h =
      bind_keeps (Kept spent)
        (λ _. if ltb 0 (length (drop 452 rest)) then send_loop p fuel (drop 452 rest) else pure tt)
        (send_encrypted_locked p
          (if ltb 0 (length (drop 452 rest)) then PacketType.data_frag else PacketType.data_packet)
          (take 452 rest) s)
        (seal-Kept _ _ spent s (chunk_type (ltb 0 (length (drop 452 rest)))) h)
        λ _ t k. elim (Bool-cases (ltb 0 (length (drop 452 rest)))) [
          | inl more ↦ rw more (send_loop-Kept fuel (drop 452 rest) spent t k)
          | inr last ↦ rw last k
        ]

  pub send-Kept :
      (bs : Bytes) (spent : Bool) (s : Session) → Kept spent s → Kept spent (send p bs s).1
  unfolding send
  send-Kept bs spent s h = elim (Bool-cases (ltb (452 * 4) (length bs))) [
    | inl large ↦ rw large h
    | inr fits ↦ rw fits (send_loop-Kept 5 bs spent s h)
  ]

  -- Keys that sealed nothing before start a new count.
  pub rotate-Kept :
      (tx rx : Bytes) (spent : Bool) (s : Session)
      → All (λ e. e.0 ≢ tx) s.seals
      → Kept spent s
      → Kept spent (install_keys tx rx s).1
  rotate-Kept tx rx spent s fresh h = (
    record {
      capped = omega arith;
      behind = All-weaken s.seals (λ e ne same. absurd (ne same)) fresh;
      no_reuse = h.0.no_reuse;
    },
    h.1,
  )

  -- After the REKEY packet the keys are still the old ones, and a key that was fresh still is.
  abbrev Before : Bool → Session → Session → Type 0
  Before spent s t =
      Kept spent t
      × (t.info.tx_key ≡ s.info.tx_key)
      × (t.info.rx_key ≡ s.info.rx_key)
      × (t.info.session_id ≡ s.info.session_id)
      × ((tx : Bytes)
          → s.info.tx_key ≢ tx
          → All (λ e. e.0 ≢ tx) s.seals
          → All (λ e. e.0 ≢ tx) t.seals)

  Before-rotation :
      (salt : Bytes) (spent : Bool) (s : Session)
      → Kept spent s
      → Before spent s (send_encrypted_locked p PacketType.rekey salt s).1
  Before-rotation salt spent s h = elim (sealed_cases p PacketType.rekey salt s) [
    | inl (f, e, k) ↦ (
      kept,
      ap (λ i. i.tx_key) e,
      ap (λ i. i.rx_key) e,
      ap (λ i. i.session_id) e,
      λ tx ne fresh. subst (All (λ e. e.0 ≢ tx)) (sym f) fresh,
    )
    | inr (f, e, k, room) ↦ (
      kept,
      ap (λ i. i.tx_key) e,
      ap (λ i. i.rx_key) e,
      ap (λ i. i.session_id) e,
      λ tx ne fresh. subst (All (λ e. e.0 ≢ tx)) (sym f) (ne, fresh),
    )
  ]
    where
      kept : Kept spent (send_encrypted_locked p PacketType.rekey salt s).1
      kept = seal-Kept PacketType.rekey salt spent s refl h

  after_rotation :
      (spent : Bool) (s t : Session) (salt : Bytes) (r : Result (Bytes × Bytes))
      → FreshKey p salt s
      → Before spent s t
      → derive_rekey_keys p true t.info.tx_key t.info.rx_key t.info.session_id salt ≡ r
      → Kept spent ((lift r >>= λ keys. install_keys keys.0 keys.1) t).1
  after_rotation spent s t salt (err x) fresh b e = b.0
  after_rotation spent s t salt (ok (tx, rx)) fresh b e =
      let old : derive_rekey_keys p true s.info.tx_key s.info.rx_key s.info.session_id salt
          ≡ ok (tx, rx) =
        cc (b.1, b.2, b.3, e) in
      let (ne, all) = fresh tx rx old in rotate-Kept tx rx spent t (b.4 tx ne all) b.0

  rotation :
      (spent : Bool) (s : Session) (salt : Bytes) (r : Result (Unit {0}) × Session)
      → FreshKey p salt s
      → Before spent s r.1
      → Kept spent
          (◌>>=◌
            (λ _. r)
            (λ _. gets (λ t. t.info) >>= λ i.
              lift (derive_rekey_keys p true i.tx_key i.rx_key i.session_id salt) >>= λ keys.
              install_keys keys.0 keys.1)
            r.1).1
  rotation spent s salt (ok _, t) fresh b = after_rotation spent s t salt _ fresh b refl
  rotation spent s salt (err e, t) fresh b = b.0

  pub rekey-Kept :
      (salt : Bytes) (spent : Bool) (s : Session)
      → FreshKey p salt s
      → Kept spent s
      → Kept spent (rekey p salt s).1
  unfolding rekey
  rekey-Kept salt spent s fresh h =
      rotation spent s salt (send_encrypted_locked p PacketType.rekey salt s) fresh
        (Before-rotation salt spent s h)

  abbrev said_bye : Session → Result (Unit {0}) × Session
  said_bye s = finish_bye p (send_encrypted_locked p PacketType.bye [] (record s { closed = true }))

  bye_closed : (s : Session) → s.closed ≡ true → bye p s ≡ (ok tt, s)
  unfolding bye
  bye_closed s e = ap (λ b. if b then (ok tt, s) else said_bye s) e

  bye_open : (s : Session) → s.closed ≡ false → bye p s ≡ said_bye s
  unfolding bye
  bye_open s e = ap (λ b. if b then (ok tt, s) else said_bye s) e

  pub bye-Kept :
      (spent : Bool) (s : Session) → Kept spent s → (spent' : Bool) × Kept spent' (bye p s).1
  bye-Kept true s h = (true, subst (λ r. Kept true r.1) (sym (bye_closed s h.1)) h)
  bye-Kept false s h = (
    true,
    subst (λ r. Kept true r.1) (sym (bye_open s h.1))
        (bye-Counts p [] (record s { closed = true }) h.0),
  )

  pub receives-Kept :
      (spent : Bool) (s t : Session)
      → t.seals ≡ s.seals
      → t.info.tx_key ≡ s.info.tx_key
      → t.info.tx_seq ≡ s.info.tx_seq
      → t.closed ≡ s.closed
      → Kept spent s
      → Kept spent t
  receives-Kept spent s t e k n c h = (rw (e, k, n) h.0, c ∙ h.1)
