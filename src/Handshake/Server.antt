-- ===== src/Handshake/Server.antt =====
-- `server_handshake` of src/usmp/_handshake.py, for the private key, the nonce and the session
-- identifier that it draws.
use usmp_python.Prelude.{
  ℕ, Bool, not, ◌&&◌, ◌||◌, ◌∷◌, ◌++◌, ◌==◌, if◌then◌else◌, take, drop, bytes_eq,
}
use usmp_python.Errors.{
  Exn, Result, ok, err, raise_if, handshake_error, auth_error, is_os_error, is_eof_error,
  is_usmp_error, is_value_error, is_struct_error,
}
use usmp_python.Types.{
  Bytes, PacketType, packet_code, UsmpFrame, SessionInfo, session_info, usmp_device_id_len,
  usmp_pub_key_len, usmp_hmac_len,
}
use usmp_python.Crypto.{Primitives, generate_keypair, derive_session_keys}
use usmp_python.Handshake.Limiter.{check_lockout, record_failed_handshake}
use usmp_python.Handshake.Psk.{PskSource, resolve_psk}
use usmp_python.Handshake.State.{Wire, H, ◌>>=◌, ◌>>◌, lift, receive, transmit, install, succeed}

-- `frame.type != kind`.
abbrev pub is_kind : PacketType → UsmpFrame → Bool
is_kind kind f = packet_code f.kind == packet_code kind

-- `_compute_hmac` on the prefix of a message and four parts: magic, version and type, and these.
abbrev pub compute_hmac : Primitives → Bytes → PacketType → Bytes → Bytes → Bytes → Bytes → Bytes
compute_hmac p psk kind a b c d =
    p.hmac_sha256 psk (0xcd ∷ 0xab ∷ 2 ∷ packet_code kind ∷ (a ++ (b ++ (c ++ d))))

-- The values that are drawn at random.
pub record Draws : Type 0 where
  pub priv : Bytes
  pub nonce : Bytes
  pub session_id : Bytes

abbrev pub hello_device : UsmpFrame → Bytes
hello_device f = take usmp_device_id_len f.payload

abbrev pub hello_key : UsmpFrame → Bytes
hello_key f = take usmp_pub_key_len (drop usmp_device_id_len f.payload)

-- Step 1.
unfoldable pub receive_hello : PskSource → H (UsmpFrame × Bytes)
receive_hello source = do
  f ← receive
  lift (raise_if (not (is_kind PacketType.hello f)) handshake_error)
  lift (raise_if (not (f.size == 38 || f.size == 54)) handshake_error)
  psk ← lift (resolve_psk source (hello_device f))
  lift (ok (f, psk))

-- Step 3 and the verification of the client.
unfoldable pub receive_ack : Bytes → H (Unit {0})
receive_ack expected = do
  f ← receive
  lift (raise_if (not (is_kind PacketType.hello_ack f)) handshake_error)
  lift (raise_if (not (f.size == usmp_hmac_len)) handshake_error)
  lift (raise_if (not (bytes_eq expected (take usmp_hmac_len f.payload))) auth_error)

-- Which errors count towards the lockout.
abbrev pub counts : Exn → Bool
counts e =
    not (is_eof_error e || is_os_error e)
    && (is_usmp_error e || is_value_error e || is_struct_error e)

-- `raise` after `record_failed_handshake`, which may raise itself.
abbrev pub raise_after : Exn → Result (Unit {0}) → Result SessionInfo
raise_after e (ok _) = err e
raise_after e (err x) = err x

module _ (p : Primitives) (source : PskSource) (limiter_key : Bytes) (drawn : Draws) where
  -- Step 4, once the client is verified.
  unfoldable pub complete : Bytes → Bytes → Bytes → Bytes → Bytes × Bytes → H SessionInfo
  complete psk device_id pub_c pub_s keys = do
    install keys.1 keys.0
    transmit PacketType.session_ok
        (drawn.session_id
          ++ compute_hmac p psk PacketType.session_ok drawn.nonce drawn.session_id pub_c pub_s)
        0
    succeed limiter_key
    lift (session_info device_id drawn.session_id keys.1 keys.0)

  -- Steps 2 to 4.
  unfoldable pub answer_hello : UsmpFrame → Bytes → H SessionInfo
  answer_hello hello psk = do
    let device_id = hello_device hello
    let pub_c = hello_key hello
    let pub_s = (generate_keypair p drawn.priv).1
    transmit PacketType.challenge (drawn.nonce ++ pub_s) 0
    keys ← lift (derive_session_keys p drawn.priv pub_c drawn.nonce pub_c pub_s)
    receive_ack (compute_hmac p psk PacketType.hello_ack drawn.nonce device_id pub_c pub_s)
    complete psk device_id pub_c pub_s keys

  -- The body of the `try`.
  unfoldable pub serve : H SessionInfo
  serve = do (hello, psk) ← receive_hello source; answer_hello hello psk

  abbrev pub account : ℕ → Result SessionInfo × Wire → Result SessionInfo × Wire
  account now (ok info, w) = (ok info, w)
  account now (err e, w) =
      if counts e
      then (let (r, failures) = record_failed_handshake now limiter_key w.failures in
          (raise_after e r, record w { failures = failures }))
      else (err e, w)

  -- The clock at the test of the lockout, and when a failure is recorded.
  unfoldable pub server_handshake : ℕ → ℕ → H SessionInfo
  server_handshake now failed_at w = elim (check_lockout now limiter_key w.failures) [
    | err e ↦ (err e, w)
    | ok _ ↦ account failed_at (serve w)
  ]
