-- ===== src/Handshake/Client.antt =====
-- `client_handshake` of src/usmp/_handshake.py, for the private key that it draws.
use usmp_python.Prelude.{◌+◌, Bool, true, false, not, ◌++◌, ltb, ◌==◌, length, take, drop, bytes_eq}
use usmp_python.Errors.{ok, raise_if, handshake_error, auth_error, value_error}
use usmp_python.Types.{
  Bytes, PacketType, UsmpFrame, SessionInfo, session_info, usmp_nonce_len, usmp_pub_key_len,
  usmp_session_id_len, usmp_hmac_len,
}
use usmp_python.Crypto.{Primitives, generate_keypair, derive_session_keys}
use usmp_python.Handshake.State.{H, ◌>>=◌, ◌>>◌, lift, receive, transmit, install}
use usmp_python.Handshake.Server.{is_kind, compute_hmac}

unfoldable pub receive_ok : H UsmpFrame
receive_ok = do
  f ← receive
  lift (raise_if (not (is_kind PacketType.session_ok f)) handshake_error)
  lift (raise_if (not (f.size == usmp_session_id_len + usmp_hmac_len)) handshake_error)
  lift (ok f)

module _ (p : Primitives) (device_id priv : Bytes) where
  -- A HELLO_RETRY is answered with its cookie, once.
  abbrev pub retry : Bool → UsmpFrame → H UsmpFrame
  retry false f = lift (ok f)
  retry true f = do
    lift (raise_if (not (f.size == 16)) handshake_error)
    transmit PacketType.hello (device_id ++ ((generate_keypair p priv).1 ++ take 16 f.payload)) 1
    receive

  unfoldable pub receive_challenge : H UsmpFrame
  receive_challenge = do
    f ← receive
    g ← retry (is_kind PacketType.hello_retry f) f
    lift (raise_if (not (is_kind PacketType.challenge g)) handshake_error)
    lift (raise_if (not (g.size == usmp_nonce_len + usmp_pub_key_len)) handshake_error)
    lift (ok g)

unfoldable pub client_handshake : Primitives → Bytes → Bytes → Bytes → H SessionInfo
client_handshake p psk device_id priv = do
  lift (raise_if (ltb (length psk) 16) value_error)
  let pub_c = (generate_keypair p priv).1
  transmit PacketType.hello (device_id ++ pub_c) 0
  challenge ← receive_challenge p device_id priv
  let nonce = take usmp_nonce_len challenge.payload
  let pub_s = take usmp_pub_key_len (drop usmp_nonce_len challenge.payload)
  keys ← lift (derive_session_keys p priv pub_s nonce pub_c pub_s)
  transmit PacketType.hello_ack
      (compute_hmac p psk PacketType.hello_ack nonce device_id pub_c pub_s) 2
  reply ← receive_ok
  let session_id = take usmp_session_id_len reply.payload
  let hmac_server = take usmp_hmac_len (drop usmp_session_id_len reply.payload)
  lift (
      raise_if
        (not (
          bytes_eq (compute_hmac p psk PacketType.session_ok nonce session_id pub_c pub_s)
            hmac_server))
        auth_error)
  install keys.0 keys.1
  lift (session_info device_id session_id keys.0 keys.1)
