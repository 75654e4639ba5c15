-- ===== src/Logging.antt =====
-- src/usmp/_logging.py: the format of a line, and which handlers `setup_logging` leaves. What the
-- logging module makes of the time, the message and an exception is in the record.
pub mod Handlers
mod Tests
use Prim.Native.String.{String}
use usmp_python.Prelude.{
  ℕ, ◌-◌, ◌==◌, Bool, true, false, Option, none, some, List, [], ◌∷◌, ◌++◌, length, replicate, drop,
  take, bytes_eq, if◌then◌else◌,
}
use usmp_python.Prelude.Texts.{Text, codes}

-- The control sequence `"\033[" + s + "m"`.
abbrev pub ansi : String → Text
ansi s = 27 ∷ codes "[" ++ codes s ++ codes "m"

-- `f"{t:<5}"`.
abbrev pub pad : Text → Text
pad t = t ++ replicate (5 - length t) 32

pub record LogRecord : Type 0 where
  pub time : Text
  pub name : Text
  pub levelno : ℕ
  pub levelname : Text
  pub message : Text
  pub exc_info : Option Text

-- `name.startswith("usmp.")` and what follows.
unfoldable pub short_name : Text → Text
short_name name =
    if bytes_eq (take 5 name) (codes "usmp.")
    then drop 5 name
    else if bytes_eq name (codes "usmp")
    then codes "core"
    else name

-- `LEVEL_BADGES`, and the text for another level.
unfoldable pub level_badge : ℕ → Text → Text
level_badge levelno levelname =
    if levelno == 10
    then ansi "46;30" ++ codes " DEBUG " ++ ansi "0"
    else if levelno == 20
    then ansi "42;30" ++ codes " INFO  " ++ ansi "0"
    else if levelno == 30
    then ansi "43;30" ++ codes " WARN  " ++ ansi "0"
    else if levelno == 40
    then ansi "41;97;1" ++ codes " ERROR " ++ ansi "0"
    else if levelno == 50
    then ansi "45;97;1" ++ codes " CRIT  " ++ ansi "0"
    else ansi "90" ++ codes "[" ++ pad levelname ++ codes "]" ++ ansi "0"

abbrev pub format_line : Bool → LogRecord → Text
format_line false r =
    r.time
    ++ codes " ["
    ++ pad r.levelname
    ++ codes "] ["
    ++ short_name r.name
    ++ codes "] "
    ++ r.message
format_line true r =
    ansi "90"
    ++ r.time
    ++ ansi "0"
    ++ codes " "
    ++ level_badge r.levelno r.levelname
    ++ codes " "
    ++ ansi "90"
    ++ codes "["
    ++ ansi "97;1"
    ++ short_name r.name
    ++ ansi "90"
    ++ codes "]"
    ++ ansi "0"
    ++ codes " "
    ++ r.message

abbrev pub add_exception : Option Text → Text → Text
add_exception none line = line
add_exception (some text) line = line ++ (10 ∷ text)

-- `ColoredFormatter.format`.
unfoldable pub format : Bool → LogRecord → Text
format use_color r = add_exception r.exc_info (format_line use_color r)

-- A handler of the logger: a `NullHandler`, or one with a stream, its level and its formatter.
pub data LogHandler : Type 0 where
  null_handler : LogHandler
  stream_handler : ℕ → Bool → LogHandler

pub record Logger : Type 0 where
  pub level : ℕ
  pub handlers : List LogHandler

-- A level by number or by name, and the stream: whether it has `isatty`, and what that returns.
pub data Level : Type 0 where
  number : ℕ → Level
  named : Text → Level

abbrev pub or_info : Option ℕ → ℕ
or_info none = 20
or_info (some n) = n

-- `getattr(logging, level.upper(), logging.INFO)`; the attributes of the module, by the name
-- before `upper`, are an argument.
abbrev pub level_number : (Text → Option ℕ) → Level → ℕ
level_number attribute (number n) = n
level_number attribute (named t) = or_info (attribute t)

abbrev pub is_colored : Option Bool → Option Bool → Bool
is_colored (some color) isatty = color
is_colored none (some b) = b
is_colored none none = false

-- `for handler in logger.handlers[:]`.
unfoldable pub remove_others : List LogHandler → List LogHandler
remove_others [] = []
remove_others (LogHandler.null_handler ∷ hs) = LogHandler.null_handler ∷ remove_others hs
remove_others (LogHandler.stream_handler level color ∷ hs) = remove_others hs

unfoldable pub setup_logging :
    (Text → Option ℕ) → Level → Option Bool → Option Bool → Logger → LogHandler × Logger
setup_logging attribute level isatty color l =
    let n = level_number attribute level in
    let handler = LogHandler.stream_handler n (is_colored color isatty) in
    (handler, record { level = n; handlers = remove_others l.handlers ++ (handler ∷ []) })
