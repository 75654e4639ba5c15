-- ===== src/Logging/Handlers.antt =====
-- Which handlers `setup_logging` leaves.
use usmp_python.Prelude.{◌≡◌, refl, Bool, Option, List, [], ◌∷◌, ◌++◌, ℕ, ◌∙◌, ap, append-nil}
use usmp_python.Prelude.Texts.{Text}
use usmp_python.Logging.{LogHandler, Logger, Level, remove_others, setup_logging, level_number}

remove_others-append :
    (xs ys : List LogHandler) → remove_others (xs ++ ys) ≡ remove_others xs ++ remove_others ys
unfolding remove_others
remove_others-append [] ys = refl
remove_others-append (LogHandler.null_handler ∷ xs) ys =
    ap (λ hs. LogHandler.null_handler ∷ hs) (remove_others-append xs ys)
remove_others-append (LogHandler.stream_handler level color ∷ xs) ys = remove_others-append xs ys

remove_others_idem : (xs : List LogHandler) → remove_others (remove_others xs) ≡ remove_others xs
unfolding remove_others
remove_others_idem [] = refl
remove_others_idem (LogHandler.null_handler ∷ xs) =
    ap (λ hs. LogHandler.null_handler ∷ hs) (remove_others_idem xs)
remove_others_idem (LogHandler.stream_handler level color ∷ xs) = remove_others_idem xs

-- Calls of `setup_logging`, one after another.
pub record Call : Type 0 where
  pub level : Level
  pub isatty : Option Bool
  pub color : Option Bool

module _ (attribute : Text → Option ℕ) where
  abbrev pub call : Call → Logger → LogHandler × Logger
  call c l = setup_logging attribute c.level c.isatty c.color l

  unfoldable pub calls : List Call → Logger → Logger
  calls [] l = l
  calls (c ∷ cs) l = calls cs (call c l).1

  calls-others :
      (cs : List Call) (l : Logger) → remove_others (calls cs l).handlers ≡ remove_others l.handlers
  unfolding calls setup_logging remove_others
  calls-others [] l = refl
  calls-others (c ∷ cs) l =
      calls-others cs (call c l).1
      ∙ remove_others-append (remove_others l.handlers) ((call c l).0 ∷ [])
      ∙ append-nil _
      ∙ remove_others_idem l.handlers

  -- However often `setup_logging` was called before, a call leaves the null handlers that the logger
  -- had at first, in their order, and after them the one handler that it returns and no other, with
  -- the level that the logger has.
  pub setup_logging-handlers :
      (cs : List Call) (c : Call) (l : Logger)
      → let (handler, l') = call c (calls cs l) in
        (l'.handlers ≡ remove_others l.handlers ++ (handler ∷ []))
        × (l'.level ≡ level_number attribute c.level)
  unfolding setup_logging
  setup_logging-handlers cs c l = (ap (λ hs. hs ++ ((call c l).0 ∷ [])) (calls-others cs l), refl)
