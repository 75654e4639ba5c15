-- ===== src/Handshake/State.antt =====
-- What a handshake reads and changes: the transport, the frames that its reads come to, and the
-- table of failed handshakes, which is global to the process.
use usmp_python.Prelude.{ℕ, List, [], ◌∷◌}
use usmp_python.Errors.{Result, ok, err, incomplete_read_error, handshake_error}
use usmp_python.Types.{Bytes, PacketType, UsmpFrame}
use usmp_python.Transport.{Link, write_frame, set_session_keys}
use usmp_python.Handshake.Limiter.{Failures, forget}

pub record Wire : Type 0 where
  pub link : Link
  -- The outcomes of the calls of `read_frame(verify_crc=False)` to come; after these the
  -- connection is closed.
  pub reads : List (Result UsmpFrame)
  pub failures : Failures

abbrev pub H : Type 0 → Type 0
H A = Wire → Result A × Wire

infixl 5 ◌>>=◌ ◌>>◌
abbrev pub ◌>>=◌ : {A B : Type 0} → H A → (A → H B) → H B
◌>>=◌ first next w = let (r, w') = first w in elim r [ err e ↦ (err e, w') | ok a ↦ next a w' ]

abbrev pub ◌>>◌ : {B : Type 0} → H (Unit {0}) → H B → H B
first >> next = first >>= λ _. next

abbrev pub lift : {A : Type 0} → Result A → H A
lift r w = (r, w)

-- A read whose `IncompleteReadError` becomes `HandshakeError`.
abbrev pub or_closed : Result UsmpFrame → Result UsmpFrame
or_closed (err incomplete_read_error) = err handshake_error
or_closed r = r

abbrev pub next_read : List (Result UsmpFrame) → Result UsmpFrame
next_read [] = err incomplete_read_error
next_read (r ∷ later) = r

abbrev pub later_reads : List (Result UsmpFrame) → List (Result UsmpFrame)
later_reads [] = []
later_reads (r ∷ later) = later

unfoldable pub receive : H UsmpFrame
receive w = (or_closed (next_read w.reads), record w { reads = later_reads w.reads })

unfoldable pub transmit : PacketType → Bytes → ℕ → H (Unit {0})
transmit kind payload seq w =
    let (r, link) = write_frame w.link kind payload seq in (r, record w { link = link })

unfoldable pub install : Bytes → Bytes → H (Unit {0})
install tx rx w = (ok tt, record w { link = set_session_keys w.link tx rx })

unfoldable pub succeed : Bytes → H (Unit {0})
succeed limiter_key w = (ok tt, record w { failures = forget limiter_key w.failures })
