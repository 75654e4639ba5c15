-- ===== src/Errors/Hierarchy.antt =====
-- The class tree of src/usmp/errors.py as a relation, and the tests of the `except` clauses
-- against it.
use usmp_python.Prelude.{◌≡◌, refl, ◌↔◌, Bool, true, false, ◌||◌, List, [], ◌∷◌, arith, ◌≢◌, none}
use usmp_python.Errors.{
  Exn, usmp_error, frame_error, crc_error, magic_error, version_error, payload_error,
  handshake_error, auth_error, crypto_error, sequence_error, usmp_timeout_error,
  connection_closed_error, not_connected_error, os_error, timeout_error, connection_error, bases,
  code, is_usmp_error, is_frame_error, is_handshake_error, is_os_error,
}

-- A class among the direct bases.
pub data Base (c : Exn) : List Exn → Type 0 where
  first : {bs : List Exn} → Base c (c ∷ bs)
  later : {a : Exn} {bs : List Exn} → Base c bs → Base c (a ∷ bs)

-- `isinstance(x, c)`, for an exception `x` of the class `e`.
pub data IsInstance (e : Exn) : Exn → Type 0 where
  itself : IsInstance e e
  through : {b c : Exn} → IsInstance e b → Base c (bases b) → IsInstance e c

abbrev some_base : (Exn → Bool) → List Exn → Bool
some_base test [] = false
some_base test (c ∷ cs) = test c || some_base test cs

some_base_of :
    (test : Exn → Bool) {c : Exn} {cs : List Exn}
    → Base c cs
    → test c ≡ true
    → some_base test cs ≡ true
some_base_of test (first {bs}) h = ground arith
some_base_of test (later s) h = ground (arith, some_base_of test s h)

-- A test that passes to a class from its bases passes to all below a class.
holds_below :
    (test : Exn → Bool)
    → ((b : Exn) → some_base test (bases b) ≡ true → test b ≡ true)
    → {e c : Exn} → IsInstance e c
    → test c ≡ true
    → test e ≡ true
holds_below test upward itself h = h
holds_below test upward (through {b} i s) h =
    holds_below test upward i (upward b (some_base_of test s h))

usmp_upward : (b : Exn) → some_base is_usmp_error (bases b) ≡ true → is_usmp_error b ≡ true
unfolding bases
usmp_upward b h = ground arith

frame_upward : (b : Exn) → some_base is_frame_error (bases b) ≡ true → is_frame_error b ≡ true
unfolding bases
frame_upward b h = ground arith

handshake_upward :
    (b : Exn) → some_base is_handshake_error (bases b) ≡ true → is_handshake_error b ≡ true
unfolding bases
handshake_upward b h = ground arith

os_upward : (b : Exn) → some_base is_os_error (bases b) ≡ true → is_os_error b ≡ true
unfolding bases
os_upward b h = ground arith

usmp-IsInstance : (e : Exn) → is_usmp_error e ≡ true → IsInstance e usmp_error
unfolding bases
usmp-IsInstance usmp_error h = itself
usmp-IsInstance frame_error h = through itself first
usmp-IsInstance crc_error h = through (through itself first) first
usmp-IsInstance magic_error h = through (through itself first) first
usmp-IsInstance version_error h = through (through itself first) first
usmp-IsInstance payload_error h = through (through itself first) first
usmp-IsInstance handshake_error h = through itself first
usmp-IsInstance auth_error h = through (through itself first) first
usmp-IsInstance crypto_error h = through itself first
usmp-IsInstance sequence_error h = through itself first
usmp-IsInstance usmp_timeout_error h = through itself first
usmp-IsInstance connection_closed_error h = through itself first
usmp-IsInstance not_connected_error h = through itself first
usmp-IsInstance _ h = cc

frame-IsInstance : (e : Exn) → is_frame_error e ≡ true → IsInstance e frame_error
unfolding bases
frame-IsInstance frame_error h = itself
frame-IsInstance crc_error h = through itself first
frame-IsInstance magic_error h = through itself first
frame-IsInstance version_error h = through itself first
frame-IsInstance payload_error h = through itself first
frame-IsInstance _ h = cc

handshake-IsInstance : (e : Exn) → is_handshake_error e ≡ true → IsInstance e handshake_error
unfolding bases
handshake-IsInstance handshake_error h = itself
handshake-IsInstance auth_error h = through itself first
handshake-IsInstance _ h = cc

os-IsInstance : (e : Exn) → is_os_error e ≡ true → IsInstance e os_error
unfolding bases
os-IsInstance os_error h = itself
os-IsInstance timeout_error h = through itself first
os-IsInstance connection_error h = through itself first
os-IsInstance _ h = cc

-- The tests of the `except` clauses follow the class tree: `is_usmp_error`, `is_frame_error`,
-- `is_handshake_error` and `is_os_error` hold of exactly the instances of their class.
pub except_tests_iff :
    (e : Exn)
    → ((is_usmp_error e ≡ true) ↔ IsInstance e usmp_error)
      × ((is_frame_error e ≡ true) ↔ IsInstance e frame_error)
      × ((is_handshake_error e ≡ true) ↔ IsInstance e handshake_error)
      × ((is_os_error e ≡ true) ↔ IsInstance e os_error)
except_tests_iff e = (
  (usmp-IsInstance e, λ i. holds_below is_usmp_error usmp_upward i refl),
  (frame-IsInstance e, λ i. holds_below is_frame_error frame_upward i refl),
  (handshake-IsInstance e, λ i. holds_below is_handshake_error handshake_upward i refl),
  (os-IsInstance e, λ i. holds_below is_os_error os_upward i refl),
)

code_usmp : (e : Exn) → (code e ≢ none) ↔ (is_usmp_error e ≡ true)
unfolding code
code_usmp e = ground arith

-- Exactly the classes below `USMPError` carry an error code.
pub code-defined_iff : (e : Exn) → (code e ≢ none) ↔ IsInstance e usmp_error
code-defined_iff e =
    let (there, back) = code_usmp e in
    let (up, down) = (except_tests_iff e).0 in (λ h. up (there h), λ i. back (down i))
