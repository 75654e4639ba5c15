-- ===== src/Window/Tests.antt =====
-- Examples for the replay window: the runs of tests/test_session.py.
use usmp_python.Prelude.{ℕ, ◌≡◌, refl, false, List, [], ◌∷◌, ◌<◌, ◌+◌, ◌↔◌, arith, replicate}
use usmp_python.Types.{CipherSuite, SessionInfo}
use usmp_python.Window.{is_replayed, slide_window}
use usmp_python.Window.Seen.{seen, Shows, slide_window-Shows, fresh-Shows}
use usmp_python.Window.Abstract.{SameNumbers, slides, is_replayed-slides}
use usmp_python.Window.Run.{accept, Distinct, accept_once}

abbrev info : SessionInfo
info = record {
  device_id = replicate 6 1;
  session_id = replicate 16 2;
  tx_key = replicate 32 3;
  rx_key = replicate 32 4;
  tx_seq = 0;
  rx_seq = 0;
  rx_window_bitmap = 0;
  cipher_suite = CipherSuite.aes256_gcm;
}

-- Out of order, with replays, and one that is too old at the end.
abbrev arrivals : List ℕ
arrivals = 3 ∷ 1 ∷ 3 ∷ 0 ∷ 1 ∷ 80 ∷ 17 ∷ 16 ∷ 80 ∷ []

accept-arrivals : (accept info [] arrivals).1 ≡ 17 ∷ 80 ∷ 0 ∷ 1 ∷ 3 ∷ []
unfolding accept is_replayed slide_window
accept-arrivals = refl

accept_once_example :
    Distinct (accept info [] arrivals).1
    × ((seq : ℕ)
        → (is_replayed (accept info [] arrivals).0 seq ≡ false) ↔ (
            (seen seq (accept info [] arrivals).1 ≡ false)
            × ((accept info [] arrivals).0.rx_seq < seq + 64)))
accept_once_example = accept_once info arrivals refl refl

abbrev one_seen : Shows (slide_window info 3) (3 ∷ [])
one_seen = slide_window-Shows info [] 3 (fresh-Shows info refl refl)

-- The same three numbers in two orders.
orders : SameNumbers (2 ∷ 7 ∷ 5 ∷ []) (5 ∷ 2 ∷ 7 ∷ [])
orders n = ground arith

is_replayed-slides_example :
    is_replayed (slides (2 ∷ 7 ∷ 5 ∷ []) info) 6 ≡ is_replayed (slides (5 ∷ 2 ∷ 7 ∷ []) info) 6
is_replayed-slides_example =
    is_replayed-slides (2 ∷ 7 ∷ 5 ∷ []) (5 ∷ 2 ∷ 7 ∷ []) info 6 orders refl refl
