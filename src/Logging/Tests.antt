-- ===== src/Logging/Tests.antt =====
-- Examples for the logging.
use usmp_python.Prelude.{ℕ, ◌≡◌, refl, true, false, Option, none, some, [], ◌∷◌, ◌++◌, bytes_eq}
use usmp_python.Prelude.Texts.{Text, codes}
use usmp_python.Logging.{
  LogRecord, format, short_name, LogHandler, Logger, Level, remove_others, level_number,
}
use usmp_python.Logging.Handlers.{Call, call, calls, setup_logging-handlers}

abbrev line : LogRecord
line = record {
  time = codes "12:00:00";
  name = codes "usmp.server";
  levelno = 20;
  levelname = codes "INFO";
  message = codes "up";
  exc_info = none;
}

plain_line : format false line ≡ codes "12:00:00 [INFO ] [server] up"
unfolding format short_name bytes_eq
plain_line = refl

core_name : format false (record line { name = codes "usmp" }) ≡ codes "12:00:00 [INFO ] [core] up"
unfolding format short_name bytes_eq
core_name = refl

abbrev attributes : Text → Option ℕ
attributes t = none

abbrev first : Call
first = record { level = Level.number 10; isatty = none; color = some true }

abbrev second : Call
second = record { level = Level.named (codes "loud"); isatty = some false; color = none }

abbrev fresh : Logger
fresh = record { level = 30; handlers = LogHandler.null_handler ∷ [] }

two_calls :
    ((call attributes second (calls attributes (first ∷ []) fresh)).1.handlers
      ≡ remove_others fresh.handlers
        ++ ((call attributes second (calls attributes (first ∷ []) fresh)).0 ∷ []))
    × ((call attributes second (calls attributes (first ∷ []) fresh)).1.level
        ≡ level_number attributes second.level)
two_calls = setup_logging-handlers attributes (first ∷ []) second fresh
