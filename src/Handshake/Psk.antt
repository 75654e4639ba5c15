-- ===== src/Handshake/Psk.antt =====
-- The pre-shared key of a device in `server_handshake` (src/usmp/_handshake.py): one key, a table
-- of keys, or a function of the caller.
use usmp_python.Prelude.{Option, none, some, List, [], ◌∷◌, ltb, if◌then◌else◌, bytes_eq, length}
use usmp_python.Errors.{Result, ok, err, ◌>>=◌, ◌>>◌, raise_if, handshake_error}
use usmp_python.Types.{Bytes}

pub data PskSource : Type 0 where
  shared : Bytes → PskSource
  table : List (Bytes × Bytes) → PskSource
  -- What the call, awaited if need be, comes to: `none` is a value that is not `bytes`.
  callback : (Bytes → Result (Option Bytes)) → PskSource
  -- Any other value.
  invalid : PskSource

unfoldable pub get_psk : List (Bytes × Bytes) → Bytes → Option Bytes
get_psk [] k = none
get_psk ((x, v) ∷ rest) k = let later = get_psk rest k in if bytes_eq k x then some v else later

abbrev pub or_handshake_error : Option Bytes → Result Bytes
or_handshake_error none = err handshake_error
or_handshake_error (some psk) = ok psk

-- The key of the device, else the key under `b""`.
abbrev pub find_psk : List (Bytes × Bytes) → Option Bytes → Option Bytes
find_psk psks none = get_psk psks []
find_psk psks (some psk) = some psk

abbrev pub lookup_psk : PskSource → Bytes → Result Bytes
lookup_psk (shared psk) device_id = ok psk
lookup_psk (table psks) device_id = or_handshake_error (find_psk psks (get_psk psks device_id))
lookup_psk (callback f) device_id = f device_id >>= or_handshake_error
lookup_psk invalid device_id = err handshake_error

unfoldable pub resolve_psk : PskSource → Bytes → Result Bytes
resolve_psk source device_id = do
  psk ← lookup_psk source device_id
  raise_if (ltb (length psk) 16) handshake_error
  ok psk
