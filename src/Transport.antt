-- ===== src/Transport.antt =====
-- The transport as a session sees it (`USMPTransport` of src/usmp/transport/base.py): what it was
-- told, in order. What the network does is an argument: each write has an outcome, and each read
-- delivers a frame or raises.
pub mod Write
pub mod Registry
pub mod Tcp
pub mod Carry
mod Tests
use usmp_python.Prelude.{ℕ, Bool, true, List, [], ◌∷◌, ◌++◌}
use usmp_python.Errors.{Exn, Result, ok, err}
use usmp_python.Types.{Bytes, PacketType, usmp_version}
use usmp_python.Frame.{encode_frame}

-- How a write of an encoded frame ends: it is sent; it is sent and the call raises all the same
-- (no acknowledgement came, or the task was cancelled); or it raises with nothing sent.
pub data Outcome : Type 0 where
  delivered : Outcome
  sent_and_raised : Exn → Outcome
  refused : Exn → Outcome

pub record Link : Type 0 where
  pub is_reliable : Bool
  -- The outcomes of the writes to come; after these, every write is delivered.
  pub outcomes : List Outcome
  -- The bytes that went out, oldest first.
  pub sent : List Bytes
  -- The calls of `set_session_keys` and `confirm_authenticated`, oldest first, and of `close`.
  pub keys : List (Bytes × Bytes)
  pub confirmed : List ℕ
  pub closed : Bool

abbrev pub outcome_of : List Outcome → Outcome
outcome_of [] = delivered
outcome_of (o ∷ os) = o

abbrev pub later_outcomes : List Outcome → List Outcome
later_outcomes [] = []
later_outcomes (o ∷ os) = os

abbrev pub transmit : Link → Bytes → Outcome → Result (Unit {0}) × Link
transmit link bs delivered = (ok tt, record link { sent = link.sent ++ (bs ∷ []) })
transmit link bs (sent_and_raised e) = (err e, record link { sent = link.sent ++ (bs ∷ []) })
transmit link bs (refused e) = (err e, link)

-- `write_frame`: the frame is encoded first, in both transports.
unfoldable pub write_frame : Link → PacketType → Bytes → ℕ → Result (Unit {0}) × Link
write_frame link kind payload seq = elim (encode_frame kind payload seq usmp_version) [
  | err e ↦ (err e, link)
  | ok bs ↦
      transmit (record link { outcomes = later_outcomes link.outcomes }) bs
        (outcome_of link.outcomes)
]

abbrev pub set_session_keys : Link → Bytes → Bytes → Link
set_session_keys link tx rx = record link { keys = link.keys ++ ((tx, rx) ∷ []) }

abbrev pub confirm_authenticated : Link → ℕ → Link
confirm_authenticated link seq = record link { confirmed = link.confirmed ++ (seq ∷ []) }

abbrev pub close : Link → Link
close link = record link { closed = true }
