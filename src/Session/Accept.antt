-- ===== src/Session/Accept.antt =====
-- The replay window through a turn of `recv` over UDP.
use usmp_python.Prelude.{
  ℕ, ◌≤◌, ◌<◌, ◌≡◌, refl, sym, ap, ap₂, subst, ◌⊎◌, inl, inr, true, false, none, some, Option, List,
  [], ◌∷◌, arith, length, ltb, leb, Bool-cases,
}
use usmp_python.Errors.{Exn, Result, ok, err, sequence_error}
use usmp_python.Types.{Bytes, PacketType, UsmpFrame, SessionInfo}
use usmp_python.Crypto.{Primitives}
use usmp_python.Transport.{confirm_authenticated}
use usmp_python.Window.{is_replayed, slide_window}
use usmp_python.Window.Seen.{seen, Shows, is_replayed_iff, slide_window-Shows, fresh-Shows}
use usmp_python.Session.State.{Session, lift, pure, ◌>>=◌}
use usmp_python.Session.Send.{max_seq, send_pong}
use usmp_python.Session.Nonce.{sealed_cases}
use usmp_python.Session.Kept.{bind_keeps}
use usmp_python.Session.Recv.{
  Arrival, Reassembly, Turn, go_on, authenticate, count_frame, dispatch, handle_packet, recv_turn,
  recover, take_control, take_rekey, limit_control, count_control,
}

Shows-same :
    (i j : SessionInfo) (ss : List ℕ)
    → j.rx_seq ≡ i.rx_seq
    → j.rx_window_bitmap ≡ i.rx_window_bitmap
    → Shows i ss
    → Shows j ss
Shows-same i j ss n b w = record {
  marks = λ k near fits. rw (n, b) (w.marks k near (omega arith));
  below = λ seq above. w.below seq (omega arith);
}

-- The window of two sessions is the same, or the second one has been given new keys by a packet of
-- this kind.
abbrev Window : PacketType → SessionInfo → SessionInfo → Type 0
Window t i j =
    ((j.rx_seq ≡ i.rx_seq) × (j.rx_window_bitmap ≡ i.rx_window_bitmap))
    ⊎ ((t ≡ PacketType.rekey) × (j.rx_seq ≡ 0) × (j.rx_window_bitmap ≡ 0))

module _ (p : Primitives) where
  pong_keeps :
      (s : Session)
      → ((send_pong p s).1.info.rx_seq ≡ s.info.rx_seq)
        × ((send_pong p s).1.info.rx_window_bitmap ≡ s.info.rx_window_bitmap)
  unfolding send_pong
  pong_keeps s = elim (sealed_cases p PacketType.pong [] s) [
    | inl (a, e, b) ↦ (ap (λ i. i.rx_seq) e, ap (λ i. i.rx_window_bitmap) e)
    | inr (a, e, b, c) ↦ (ap (λ i. i.rx_seq) e, ap (λ i. i.rx_window_bitmap) e)
  ]

  ping_keeps :
      (now : ℕ) (st : Reassembly) (s : Session)
      → Window PacketType.ping s.info (take_control p PacketType.ping now st s).1.info
  unfolding take_control
  ping_keeps now st s = elim (Bool-cases (ltb 0 (length st.assembled))) [
    | inl busy ↦ rw busy (inl (refl, refl))
    | inr idle ↦ rw idle (
        bind_keeps (λ t. Window PacketType.ping s.info t.info)
          (λ _. lift (limit_control (count_control st now))) (send_pong p s) (inl (pong_keeps s))
          λ _ t h. h)
  ]

  pong_counts :
      (now : ℕ) (st : Reassembly) (s : Session)
      → Window PacketType.pong s.info (take_control p PacketType.pong now st s).1.info
  unfolding take_control
  pong_counts now st s = ground arith

  rekey_keeps :
      (m : Bytes) (st : Reassembly) (s : Session)
      → Window PacketType.rekey s.info (take_rekey p m st s).1.info
  unfolding take_rekey
  rekey_keeps m st s = ground arith

  dispatch_keeps :
      (t : PacketType) (f : UsmpFrame) (m : Bytes) (now : ℕ) (st : Reassembly) (s : Session)
      → Window t s.info (dispatch p t f m now st s).1.info
  dispatch_keeps PacketType.ping f m now st s = ping_keeps now st s
  dispatch_keeps PacketType.pong f m now st s = pong_counts now st s
  dispatch_keeps PacketType.rekey f m now st s = rekey_keeps m st s
  dispatch_keeps PacketType.bye f m now st s = inl (refl, refl)
  dispatch_keeps PacketType.data_packet f m now st s = inl (refl, refl)
  dispatch_keeps PacketType.data_frag f m now st s = inl (refl, refl)
  dispatch_keeps _ f m now st s = inl (refl, refl)

  recover-state : (st : Reassembly) (x : Result Turn × Session) → (recover p st x).1 ≡ x.1
  recover-state st (ok turn, s) = refl
  recover-state st (err e, s) = ground arith

  -- What a packet that was opened does to the window.
  abbrev Takes : SessionInfo → List ℕ → UsmpFrame → SessionInfo → Type 0
  Takes i ss f j =
      (seen f.seq ss ≡ false)
      × (((max_seq ≤ f.seq) × (j ≡ i))
          ⊎ ((f.seq < max_seq)
              × (Shows j (f.seq ∷ ss) ⊎ ((f.kind ≡ PacketType.rekey) × Shows j []))))

  after-Window :
      (t : PacketType) (i j : SessionInfo) (ss : List ℕ)
      → Window t i j
      → Shows i ss
      → Shows j ss ⊎ ((t ≡ PacketType.rekey) × Shows j [])
  after-Window t i j ss (inl (n, b)) w = inl (Shows-same i j ss n b w)
  after-Window t i j ss (inr (k, n, b)) w = inr (k, fresh-Shows j n b)

  module _ (a : Arrival) (st : Reassembly) (s : Session) (ss : List ℕ)
      (udp : s.link.is_reliable ≡ false) (w : Shows s.info ss) where
    abbrev opened : Session
    opened = record s { last_recv = a.read_at }

    abbrev slid : ℕ → Session
    slid seq = record opened {
      info = slide_window s.info seq;
      link = confirm_authenticated s.link seq;
    }

    overflow :
        (f : UsmpFrame)
        → leb max_seq f.seq ≡ true
        → count_frame f opened ≡ (err sequence_error, opened)
    unfolding count_frame
    overflow f h = rw h

    slides :
        (f : UsmpFrame) → leb max_seq f.seq ≡ false → count_frame f opened ≡ (ok tt, slid f.seq)
    unfolding count_frame
    slides f h = rw (h, udp)

    dispatched :
        (f : UsmpFrame) (m : Bytes)
        → is_replayed s.info f.seq ≡ false
        → leb max_seq f.seq ≡ false
        → Takes s.info ss f
            (recover p st (dispatch p f.kind f m a.counted_at st (slid f.seq))).1.info
    dispatched f m fresh room =
        subst (λ t. Takes s.info ss f t.info)
          (sym (recover-state st (dispatch p f.kind f m a.counted_at st (slid f.seq))))
          (
            ((is_replayed_iff s.info ss f.seq w).0 fresh).0,
            inr (
              ground arith,
              after-Window f.kind (slide_window s.info f.seq)
                  (dispatch p f.kind f m a.counted_at st (slid f.seq)).1.info (f.seq ∷ ss)
                  (dispatch_keeps f.kind f m a.counted_at st (slid f.seq))
                  (slide_window-Shows s.info ss f.seq w),
            ),
          )

    -- What follows the count of the frame.
    abbrev continued : UsmpFrame → Bytes → Result (Unit {0}) × Session → Result Turn × Session
    continued f m x =
        ◌>>=◌ (λ _. x) (λ _ t. recover p st (dispatch p f.kind f m a.counted_at st t)) opened

    handled :
        (f : UsmpFrame) (m : Bytes)
        → is_replayed s.info f.seq ≡ false
        → Takes s.info ss f (handle_packet p f m a.counted_at st opened).1.info
    handled f m fresh = elim (Bool-cases (leb max_seq f.seq)) [
      | inl spent ↦
          subst (λ x. Takes s.info ss f (continued f m x).1.info) (sym (overflow f spent))
            (((is_replayed_iff s.info ss f.seq w).0 fresh).0, inl (ground arith, refl))
      | inr room ↦
          subst (λ x. Takes s.info ss f (continued f m x).1.info) (sym (slides f room))
            (dispatched f m fresh room)
    ]

    authenticated :
        (let (r, t) = authenticate p a s in
          ((t ≡ s) × ((r ≡ ok none) ⊎ ((e : Exn) × (r ≡ err e))))
          ⊎ ((f : UsmpFrame) × (m : Bytes) × (r ≡ ok (some (f, m)))
              × (t ≡ record s { last_recv = a.read_at })
              × (a.frame ≡ ok f)
              × (is_replayed s.info f.seq ≡ false)))
    unfolding authenticate
    authenticated = ground arith

    -- What follows authentication.
    abbrev turned : Result (Option (UsmpFrame × Bytes)) × Session → Result Turn × Session
    turned x =
        ◌>>=◌ (λ _. x)
          (λ got. elim got [
            | none ↦ pure (go_on st)
            | some (f, m) ↦ handle_packet p f m a.counted_at st
          ])
          s

    abbrev Outcome : Result (Option (UsmpFrame × Bytes)) → SessionInfo → Type 0
    Outcome got j =
        (((got ≡ ok none) ⊎ ((e : Exn) × (got ≡ err e))) × (j ≡ s.info))
        ⊎ ((f : UsmpFrame) × (m : Bytes) × (got ≡ ok (some (f, m)))
            × (a.frame ≡ ok f)
            × Takes s.info ss f j)

    turn_accepts : Outcome (authenticate p a s).0 (recv_turn p a st s).1.info
    unfolding recv_turn
    turn_accepts = elim authenticated [
      | inl (same, inl nothing) ↦
          inl (inl nothing, ap (λ x. (turned x).1.info) (ap₂ (λ r t. (r, t)) nothing same))
      | inl (same, inr (e, raised)) ↦
          inl (inr (e, raised), ap (λ x. (turned x).1.info) (ap₂ (λ r t. (r, t)) raised same))
      | inr (f, m, got, now, arrived, fresh) ↦ inr (
        f,
        m,
        got,
        arrived,
        subst (λ x. Takes s.info ss f (turned x).1.info) (sym (ap₂ (λ r t. (r, t)) got now))
            (handled f m fresh),
      )
    ]

-- Over UDP a turn of `recv` either opens no packet, which drops or raises and leaves the session's
-- information as it was; or it opens one, whose number was not accepted before. If the number is not
-- below the last one, the information stays as it was too; else the window then shows the number
-- beside the others, or, only if the packet is a REKEY, may be empty.
pub recv_turn-Shows :
    (p : Primitives) (a : Arrival) (st : Reassembly) (s : Session) (ss : List ℕ)
    → s.link.is_reliable ≡ false
    → Shows s.info ss
    → let got = (authenticate p a s).0 in
      let j = (recv_turn p a st s).1.info in
      (((got ≡ ok none) ⊎ ((e : Exn) × (got ≡ err e))) × (j ≡ s.info))
      ⊎ ((f : UsmpFrame) × (m : Bytes) × (got ≡ ok (some (f, m)))
          × (a.frame ≡ ok f)
          × ((seen f.seq ss ≡ false)
              × (((max_seq ≤ f.seq) × (j ≡ s.info))
                  ⊎ ((f.seq < max_seq)
                      × (Shows j (f.seq ∷ ss) ⊎ ((f.kind ≡ PacketType.rekey) × Shows j []))))))
recv_turn-Shows p a st s ss udp w = turn_accepts p a st s ss udp w
