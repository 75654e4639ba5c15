-- ===== src/Session/Drop.antt =====
-- What `recv` does over UDP with packets that do not verify.
use usmp_python.Prelude.{
  ◌≡◌, refl, ◌⊎◌, inl, inr, ◌||◌, Bool, true, false, none, List, [], ◌∷◌, ◌++◌, arith, All,
}
use usmp_python.Errors.{Exn, ok, err, is_usmp_error, is_struct_error}
use usmp_python.Types.{UsmpFrame, SessionInfo}
use usmp_python.Crypto.{Primitives}
use usmp_python.Window.{is_replayed}
use usmp_python.Session.State.{Session}
use usmp_python.Session.Recv.{
  Arrival, Reassembly, go_on, open_frame, authenticate, recv_turn, recv_internal,
}

abbrev pub protocol_error : Exn → Bool
protocol_error e = is_usmp_error e || is_struct_error e

-- The frame does not decode, its number was used before or is too old, or it does not open.
abbrev pub Invalid : Primitives → SessionInfo → Arrival → Type 0
Invalid p info a =
    ((e : Exn) × (a.frame ≡ err e) × (protocol_error e ≡ true))
    ⊎ ((f : UsmpFrame) × (a.frame ≡ ok f)
        × ((is_replayed info f.seq ≡ true)
            ⊎ ((e : Exn) × (open_frame p info f ≡ err e) × (protocol_error e ≡ true))))

module _ (p : Primitives) (st : Reassembly) (s : Session) (udp : s.link.is_reliable ≡ false) where
  dropped : (a : Arrival) → Invalid p s.info a → authenticate p a s ≡ (ok none, s)
  unfolding authenticate
  dropped a (inl (e, arrived, known)) = ground arith
  dropped a (inr (f, arrived, inl replayed)) = ground arith
  dropped a (inr (f, arrived, inr (e, closed, known))) = ground arith

  dropped_turn : (a : Arrival) → Invalid p s.info a → recv_turn p a st s ≡ (ok (go_on st), s)
  unfolding recv_turn
  dropped_turn a bad = ground (arith, dropped a bad)

  undisturbed :
      (bad later : List Arrival)
      → All (Invalid p s.info) bad
      → recv_internal p (bad ++ later) st s ≡ recv_internal p later st s
  unfolding recv_internal
  undisturbed [] later h = refl
  undisturbed (a ∷ bad) later h = ground (arith, dropped_turn a h.0, undisturbed bad later h.1)

-- Over UDP any number of packets that do not decode, are replayed or do not open under the
-- session's key change nothing: `recv` goes on as if they had not arrived.
pub recv_internal-Invalid :
    (p : Primitives) (st : Reassembly) (s : Session) (bad later : List Arrival)
    → s.link.is_reliable ≡ false
    → All (Invalid p s.info) bad
    → recv_internal p (bad ++ later) st s ≡ recv_internal p later st s
recv_internal-Invalid p st s bad later udp h = undisturbed p st s udp bad later h
