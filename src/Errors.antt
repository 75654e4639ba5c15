-- ===== src/Errors.antt =====
-- src/usmp/errors.py: the exception classes with their bases and their codes, and the classes of
-- the Python library that the code raises or catches beside them. A message is dropped.
pub mod Hierarchy
use usmp_python.Prelude.{Bool, true, false, ◌||◌, ℕ, zero, suc, List, [], ◌∷◌, Option, none, some}

-- `USMPErrorCode` of src/usmp/types.py.
pub data UsmpErrorCode : Type 0 where
  success invalid_arg transport_failed auth_failed timeout replay_detected buffer_overflow :
      UsmpErrorCode
  seq_exhausted crypto_failed not_connected : UsmpErrorCode

pub data Exn : Type 0 where
  usmp_error frame_error crc_error magic_error version_error payload_error handshake_error : Exn
  auth_error crypto_error sequence_error usmp_timeout_error connection_closed_error : Exn
  not_connected_error : Exn
  exception runtime_error value_error index_error type_error struct_error overflow_error : Exn
  os_error timeout_error connection_error eof_error incomplete_read_error : Exn
  -- `cryptography.exceptions.InvalidTag`.
  invalid_tag : Exn

-- The direct bases, of a class of the source and of a class of Python.
pub bases : Exn → List Exn
bases usmp_error = exception ∷ []
bases frame_error = usmp_error ∷ []
bases crc_error = frame_error ∷ []
bases magic_error = frame_error ∷ []
bases version_error = frame_error ∷ []
bases payload_error = frame_error ∷ []
bases handshake_error = usmp_error ∷ []
bases auth_error = handshake_error ∷ []
bases crypto_error = usmp_error ∷ []
bases sequence_error = usmp_error ∷ []
bases usmp_timeout_error = usmp_error ∷ []
bases connection_closed_error = usmp_error ∷ []
bases not_connected_error = usmp_error ∷ runtime_error ∷ []
bases exception = []
bases timeout_error = os_error ∷ []
bases connection_error = os_error ∷ []
bases incomplete_read_error = eof_error ∷ []
bases _ = exception ∷ []

-- `code` of each class of the source; the classes of Python have none.
pub code : Exn → Option UsmpErrorCode
code usmp_error = some invalid_arg
code frame_error = some invalid_arg
code crc_error = some transport_failed
code magic_error = some invalid_arg
code version_error = some invalid_arg
code payload_error = some buffer_overflow
code handshake_error = some auth_failed
code auth_error = some auth_failed
code crypto_error = some crypto_failed
code sequence_error = some replay_detected
code usmp_timeout_error = some timeout
code connection_closed_error = some transport_failed
code not_connected_error = some not_connected
code _ = none

-- What `except C` catches: `is_usmp_error e` for `except USMPError`, and so on. `Hierarchy` shows
-- that these follow the bases.
abbrev pub is_frame_error : Exn → Bool
is_frame_error frame_error = true
is_frame_error crc_error = true
is_frame_error magic_error = true
is_frame_error version_error = true
is_frame_error payload_error = true
is_frame_error _ = false

abbrev pub is_handshake_error : Exn → Bool
is_handshake_error handshake_error = true
is_handshake_error auth_error = true
is_handshake_error _ = false

abbrev pub is_sequence_error : Exn → Bool
is_sequence_error sequence_error = true
is_sequence_error _ = false

abbrev pub is_value_error : Exn → Bool
is_value_error value_error = true
is_value_error _ = false

abbrev pub is_struct_error : Exn → Bool
is_struct_error struct_error = true
is_struct_error _ = false

abbrev pub is_os_error : Exn → Bool
is_os_error os_error = true
is_os_error timeout_error = true
is_os_error connection_error = true
is_os_error _ = false

-- `except (TimeoutError, USMPTimeoutError)`.
abbrev pub is_timeout_error : Exn → Bool
is_timeout_error timeout_error = true
is_timeout_error usmp_timeout_error = true
is_timeout_error _ = false

abbrev pub is_eof_error : Exn → Bool
is_eof_error eof_error = true
is_eof_error incomplete_read_error = true
is_eof_error _ = false

abbrev pub is_usmp_error : Exn → Bool
is_usmp_error usmp_error = true
is_usmp_error handshake_error = true
is_usmp_error auth_error = true
is_usmp_error crypto_error = true
is_usmp_error sequence_error = true
is_usmp_error usmp_timeout_error = true
is_usmp_error connection_closed_error = true
is_usmp_error not_connected_error = true
is_usmp_error e = is_frame_error e

-- The result of a call that may raise.
pub data Result {ℓ} (A : Type ℓ) : Type ℓ where
  ok : A → Result A
  err : Exn → Result A

-- An exception passes through what follows it.
infixl 5 ◌>>=◌
abbrev pub ◌>>=◌ {ℓ κ} : {A : Type ℓ} {B : Type κ} → Result A → (A → Result B) → Result B
err e >>= next = err e
ok a >>= next = next a

-- `if test: raise e`.
abbrev pub raise_if : Bool → Exn → Result (Unit {0})
raise_if true e = err e
raise_if false e = ok tt

infixl 5 ◌>>◌
abbrev pub ◌>>◌ {ℓ} : {B : Type ℓ} → Result (Unit {0}) → Result B → Result B
r >> next = r >>= λ _. next
