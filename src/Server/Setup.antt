-- ===== src/Server/Setup.antt =====
-- The constructor of `USMPServer` in src/usmp/_server.py: which keys it takes, and the state in
-- which a server starts.
use usmp_python.Prelude.{
  ℕ, ◌≤◌, ◌≡◌, refl, Option, none, some, List, [], ◌∷◌, ◌⊎◌, inl, inr, arith, ltb, length, bytes_eq,
  Bool-cases, All,
}
use usmp_python.Errors.{Result, ok, err, ◌>>=◌, ◌>>◌, raise_if, value_error, handshake_error}
use usmp_python.Types.{Bytes}
use usmp_python.Handshake.Psk.{
  PskSource, get_psk, find_psk, lookup_psk, resolve_psk, or_handshake_error,
}
use usmp_python.Server.State.{Server}

-- `if not val or len(val) < 16` for each value of the dictionary.
unfoldable pub check_values : List (Bytes × Bytes) → Result (Unit {0})
check_values [] = ok tt
check_values ((device, val) ∷ psks) =
    raise_if (ltb (length val) 16) value_error >> check_values psks

-- `invalid` stands for a value that is not false and of no other kind.
unfoldable pub check_psk : PskSource → Result (Unit {0})
check_psk (PskSource.shared psk) = raise_if (ltb (length psk) 16) value_error
check_psk (PskSource.table []) = err value_error
check_psk (PskSource.table (entry ∷ psks)) = check_values (entry ∷ psks)
check_psk (PskSource.callback f) = ok tt
check_psk PskSource.invalid = ok tt

abbrev pub empty_server : ℕ → ℕ → Bytes → Server
empty_server max_connections max_connections_per_ip cookie_secret = record {
  max_connections = max_connections;
  max_connections_per_ip = max_connections_per_ip;
  cookie_secret = cookie_secret;
  tcp_connections = [];
  udp_sessions = [];
  udp_handshakes = [];
  udp_in_progress_handshakes = [];
  udp_cookie_rate_limiter = [];
  streams = [];
  tasks = [];
  sent = [];
}

-- The constructor, with the bytes that `os.urandom` draws.
unfoldable pub new_server : PskSource → ℕ → ℕ → Bytes → Result Server
new_server psk max_connections max_connections_per_ip cookie_secret =
    check_psk psk >> ok (empty_server max_connections max_connections_per_ip cookie_secret)

-- Keys that do not come from a function of the caller.
abbrev pub IsStored : PskSource → Type 0
IsStored (PskSource.callback f) = ⊥
IsStored _ = Unit

abbrev IsLong : Option Bytes → Type 0
IsLong none = Unit
IsLong (some psk) = 16 ≤ length psk

-- The length test of the handshake lets a long key through, and a missing one is refused before.
long_passes :
    (o : Option Bytes)
    → IsLong o
    → (or_handshake_error o >>= λ psk. raise_if (ltb (length psk) 16) handshake_error >> ok psk)
      ≡ or_handshake_error o
long_passes none h = refl
long_passes (some psk) h = ground arith

check_values-cases :
    (psks : List (Bytes × Bytes))
    → (check_values psks ≡ err value_error)
      ⊎ ((check_values psks ≡ ok tt) × All (λ e. 16 ≤ length e.1) psks)
unfolding check_values
check_values-cases [] = inr (refl, tt)
check_values-cases ((device, val) ∷ psks) = elim (Bool-cases (ltb (length val) 16)) [
  | inl short ↦ inl (rw short refl)
  | inr long ↦ elim (check_values-cases psks) [
    | inl e ↦ inl (simp (long, e))
    | inr (e, h) ↦ inr (simp (long, e), (ground arith, h))
  ]
]

get_psk-IsLong :
    (psks : List (Bytes × Bytes)) (device : Bytes)
    → All (λ e. 16 ≤ length e.1) psks
    → IsLong (get_psk psks device)
unfolding get_psk
get_psk-IsLong [] device h = tt
get_psk-IsLong ((x, v) ∷ psks) device h = elim (Bool-cases (bytes_eq device x)) [
  | inl here ↦ rw here h.0
  | inr past ↦ rw past (get_psk-IsLong psks device h.1)
]

find_psk-IsLong :
    (psks : List (Bytes × Bytes)) (o : Option Bytes)
    → All (λ e. 16 ≤ length e.1) psks
    → IsLong o
    → IsLong (find_psk psks o)
find_psk-IsLong psks none h k = get_psk-IsLong psks [] h
find_psk-IsLong psks (some psk) h k = k

module _ (m k : ℕ) (secret : Bytes) where
  -- With keys that do not come from a function, the constructor raises `ValueError` or makes a
  -- server without connections; and then no key that the handshake finds for a device is refused for
  -- its length.
  pub new_server-resolve_psk :
      (source : PskSource)
      → IsStored source
      → (new_server source m k secret ≡ err value_error)
        ⊎ ((new_server source m k secret ≡ ok (empty_server m k secret))
            × ((device : Bytes) → resolve_psk source device ≡ lookup_psk source device))
  unfolding new_server check_psk resolve_psk
  new_server-resolve_psk (PskSource.shared psk) h = elim (Bool-cases (ltb (length psk) 16)) [
    | inl short ↦ inl (simp short)
    | inr long ↦ inr (simp long, λ device. long_passes (some psk) (ground arith))
  ]
  new_server-resolve_psk (PskSource.table []) h = inl refl
  new_server-resolve_psk (PskSource.table (entry ∷ psks)) h =
      elim (check_values-cases (entry ∷ psks)) [
        | inl e ↦ inl (simp e)
        | inr (e, long) ↦ inr (
          simp e,
          λ device.
              long_passes _
                (find_psk-IsLong (entry ∷ psks) _ long (get_psk-IsLong (entry ∷ psks) device long)),
        )
      ]
  new_server-resolve_psk (PskSource.callback f) h = absurd h
  new_server-resolve_psk PskSource.invalid h = inr (refl, λ device. refl)
