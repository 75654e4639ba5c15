-- ===== src/Window/Run.antt =====
-- The window over a whole run: the numbers of the packets that arrive and verify, in order.
use usmp_python.Prelude.{
  ℕ, ◌<◌, ◌+◌, ◌≡◌, false, List, [], ◌∷◌, Bool-cases, ◌↔◌, inl, inr, if◌then◌else◌,
}
use usmp_python.Types.{SessionInfo}
use usmp_python.Window.{is_replayed, slide_window}
use usmp_python.Window.Seen.{seen, Shows, is_replayed_iff, slide_window-Shows, fresh-Shows}

-- What `recv` does with the number of a packet that verifies: it drops a replayed one, and
-- otherwise accepts it and slides the window. The accepted numbers, latest first.
unfoldable pub accept : SessionInfo → List ℕ → List ℕ → SessionInfo × List ℕ
accept info ss [] = (info, ss)
accept info ss (seq ∷ seqs) =
    let rest = accept (slide_window info seq) (seq ∷ ss) seqs in
    let skip = accept info ss seqs in if is_replayed info seq then skip else rest

abbrev pub Distinct : List ℕ → Type 0
Distinct [] = Unit
Distinct (s ∷ ss) = (seen s ss ≡ false) × Distinct ss

accept-Distinct :
    (info : SessionInfo) (ss seqs : List ℕ)
    → Shows info ss
    → Distinct ss
    → Shows (accept info ss seqs).0 (accept info ss seqs).1 × Distinct (accept info ss seqs).1
unfolding accept
accept-Distinct info ss [] w d = (w, d)
accept-Distinct info ss (seq ∷ seqs) w d = elim (Bool-cases (is_replayed info seq)) [
  | inl replayed ↦ rw replayed (accept-Distinct info ss seqs w d)
  | inr fresh ↦ rw fresh (
      accept-Distinct (slide_window info seq) (seq ∷ ss) seqs (slide_window-Shows info ss seq w)
        (((is_replayed_iff info ss seq w).0 fresh).0, d))
]

-- Whatever packets arrive in whatever order, from a fresh window on: no sequence number is ever
-- accepted twice, and at the end exactly the numbers not accepted yet that are at most 63 behind
-- the highest accepted one would still pass.
pub accept_once :
    (info : SessionInfo) (seqs : List ℕ)
    → info.rx_seq ≡ 0
    → info.rx_window_bitmap ≡ 0
    → let (last, ss) = accept info [] seqs in
      Distinct ss
      × ((seq : ℕ)
          → (is_replayed last seq ≡ false) ↔ ((seen seq ss ≡ false) × (last.rx_seq < seq + 64)))
accept_once info seqs z e =
    let (w, d) = accept-Distinct info [] seqs (fresh-Shows info z e) tt in
    (d, λ seq. is_replayed_iff (accept info [] seqs).0 (accept info [] seqs).1 seq w)
