-- ===== src/Session/Once.antt =====
-- Copies of one packet over UDP, as retransmissions leave them in the read buffer.
use usmp_python.Prelude.{
  ℕ, ◌+◌, ◌<◌, ◌≡◌, inl, inr, true, false, some, List, ◌∷◌, ◌++◌, arith, All, All-map, Bool-cases,
}
use usmp_python.Errors.{ok}
use usmp_python.Types.{Bytes, PacketType, UsmpFrame}
use usmp_python.Crypto.{Primitives}
use usmp_python.Transport.{confirm_authenticated}
use usmp_python.Window.{is_replayed, slide_window}
use usmp_python.Window.Seen.{seen, Shows, is_replayed_iff, slide_window-Shows}
use usmp_python.Session.State.{Session}
use usmp_python.Session.Send.{max_seq}
use usmp_python.Session.Recv.{
  Arrival, Reassembly, start_reassembly, give, go_on, add_fragment, open_frame, authenticate,
  count_frame, take_fragment, recv_turn, recv_internal,
}
use usmp_python.Session.Drop.{recv_internal-Invalid}

-- A frame of one packet that a session over UDP has not accepted yet, and opens.
pub record IsNew (p : Primitives) (f : UsmpFrame) (m : Bytes) (ss : List ℕ) (r : Session)
    : Type 0 where
  pub udp : r.link.is_reliable ≡ false
  pub window : Shows r.info ss
  pub unseen : seen f.seq ss ≡ false
  pub recent : r.info.rx_seq < f.seq + 64
  pub room : f.seq < max_seq
  pub opens : open_frame p r.info f ≡ ok m

module _ (p : Primitives) (f : UsmpFrame) (m : Bytes) (ss : List ℕ) (r : Session)
    (new : IsNew p f m ss r) where
  -- The session once the packet was accepted.
  abbrev pub accepted : ℕ → Session
  accepted now = record r {
    info = slide_window r.info f.seq;
    link = confirm_authenticated r.link f.seq;
    last_recv = now;
  }

  fresh : is_replayed r.info f.seq ≡ false
  fresh = (is_replayed_iff r.info ss f.seq new.window).1 (new.unseen, new.recent)

  spent : is_replayed (slide_window r.info f.seq) f.seq ≡ true
  spent = elim (Bool-cases (is_replayed (slide_window r.info f.seq) f.seq)) [
    | inl marked ↦ marked
    | inr unmarked ↦
        let again =
          ((is_replayed_iff (slide_window r.info f.seq) (f.seq ∷ ss) f.seq
              (slide_window-Shows r.info ss f.seq new.window)).0
            unmarked).0 in
        absurd (ground (arith, again))
  ]

  module _ (a : Arrival) (arrived : a.frame ≡ ok f) where
    authenticated : authenticate p a r ≡ (ok (some (f, m)), record r { last_recv = a.read_at })
    unfolding authenticate
    authenticated = ground (arith, fresh, new.opens, new.udp)

    counts : count_frame f (record r { last_recv = a.read_at }) ≡ (ok tt, accepted a.read_at)
    unfolding count_frame
    counts = ground (arith, new.room, new.udp)

    -- A turn of `recv` on the last packet of a message, and on one before it.
    module _ (st : Reassembly)
        (consecutive : 0 < st.frame_count → f.seq ≡ st.expected_frag_seq) where
      pub last_turn :
          f.kind ≡ PacketType.data_packet
          → recv_turn p a st r ≡ (ok (give (st.assembled ++ m)), accepted a.read_at)
      unfolding recv_turn take_fragment
      last_turn whole = ground (arith, authenticated, counts, whole)

      pub more_turn :
          f.kind ≡ PacketType.data_frag
          → st.frame_count + 1 < 4
          → recv_turn p a st r ≡ (ok (go_on (add_fragment st f.seq m)), accepted a.read_at)
      unfolding recv_turn take_fragment
      more_turn part few = ground (arith, authenticated, counts, part)

  pub copies_dropped :
      (copies later : List Arrival) (now : ℕ) (st : Reassembly)
      → All (λ b. b.frame ≡ ok f) copies
      → recv_internal p (copies ++ later) st (accepted now)
        ≡ recv_internal p later st (accepted now)
  copies_dropped copies later now st same =
      recv_internal-Invalid p st (accepted now) copies later new.udp
        (All-map _ _ copies (λ b e. inr (f, e, inl spent)) same)

  -- Of any number of copies of a packet that is a message the first is the one that `recv` returns,
  -- and all others change nothing in whatever call of `recv` they come: it goes on as if they had not
  -- arrived.
  pub recv_internal-copies :
      (a : Arrival) (copies later : List Arrival) (now : ℕ) (st : Reassembly)
      → f.kind ≡ PacketType.data_packet
      → a.frame ≡ ok f
      → All (λ b. b.frame ≡ ok f) copies
      → (recv_internal p (a ∷ copies) (start_reassembly now) r
          ≡ (ok (some m), copies, accepted a.read_at))
        × (recv_internal p (copies ++ later) st (accepted a.read_at)
            ≡ recv_internal p later st (accepted a.read_at))
  unfolding recv_internal
  recv_internal-copies a copies later now st whole arrived same = (
    ground
        (arith, last_turn a arrived (start_reassembly now) (λ h. absurd (omega (arith, h))) whole),
    copies_dropped copies later a.read_at st same,
  )
