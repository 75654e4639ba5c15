-- ===== src/Handshake/Runs.antt =====
-- A handshake whose parts all succeed.
use usmp_python.Prelude.{◌≤◌, ◌≡◌, arith, ◌++◌, take, drop, length, bytes_eq_refl}
use usmp_python.Errors.{ok}
use usmp_python.Types.{Bytes, PacketType, UsmpFrame, SessionInfo, session_info}
use usmp_python.Crypto.{Primitives, generate_keypair, derive_session_keys}
use usmp_python.Transport.{set_session_keys}
use usmp_python.Handshake.Limiter.{forget}
use usmp_python.Handshake.Psk.{PskSource}
use usmp_python.Handshake.State.{Wire, transmit, install, succeed}
use usmp_python.Handshake.Server.{
  Draws, compute_hmac, hello_device, hello_key, receive_hello, receive_ack, serve, answer_hello,
  complete,
}
use usmp_python.Handshake.Client.{receive_challenge, receive_ok, client_handshake}

abbrev pub with_keys : Wire → Bytes → Bytes → Wire
with_keys w tx rx = record w { link = set_session_keys w.link tx rx }

module _ (p : Primitives) where
  pub serve-ok :
      (source : PskSource) (key : Bytes) (drawn : Draws) (w w1 w2 w3 w4 : Wire) (hello : UsmpFrame)
      (psk device pub_c c2s s2c : Bytes) (info : SessionInfo)
      → receive_hello source w ≡ (ok (hello, psk), w1)
      → hello_device hello ≡ device
      → hello_key hello ≡ pub_c
      → let pub_s = p.public_bytes drawn.priv in
        transmit PacketType.challenge (drawn.nonce ++ pub_s) 0 w1 ≡ (ok tt, w2)
        → derive_session_keys p drawn.priv pub_c drawn.nonce pub_c pub_s ≡ ok (c2s, s2c)
        → receive_ack (compute_hmac p psk PacketType.hello_ack drawn.nonce device pub_c pub_s) w2
          ≡ (ok tt, w3)
        → transmit PacketType.session_ok
            (drawn.session_id
              ++ compute_hmac p psk PacketType.session_ok drawn.nonce drawn.session_id pub_c pub_s)
            0
            (with_keys w3 s2c c2s)
          ≡ (ok tt, w4)
        → session_info device drawn.session_id s2c c2s ≡ ok info
        → serve p source key drawn w ≡ (ok info, record w4 { failures = forget key w4.failures })
  unfolding serve answer_hello complete generate_keypair install succeed
  serve-ok source key drawn w w1 w2 w3 w4 hello psk device pub_c c2s s2c info e1 hd hk e2 e3 e4 e5
        e6 =
      ground arith

  pub client-ok :
      (psk device priv : Bytes) (w w1 w2 w3 w4 : Wire) (challenge reply : UsmpFrame)
      (nonce pub_s session_id mac c2s s2c : Bytes) (info : SessionInfo)
      → 16 ≤ length psk
      → transmit PacketType.hello (device ++ p.public_bytes priv) 0 w ≡ (ok tt, w1)
      → receive_challenge p device priv w1 ≡ (ok challenge, w2)
      → take 32 challenge.payload ≡ nonce
      → take 32 (drop 32 challenge.payload) ≡ pub_s
      → derive_session_keys p priv pub_s nonce (p.public_bytes priv) pub_s ≡ ok (c2s, s2c)
      → transmit PacketType.hello_ack
          (compute_hmac p psk PacketType.hello_ack nonce device (p.public_bytes priv) pub_s)
          2
          w2
        ≡ (ok tt, w3)
      → receive_ok w3 ≡ (ok reply, w4)
      → take 16 reply.payload ≡ session_id
      → take 32 (drop 16 reply.payload) ≡ mac
      → compute_hmac p psk PacketType.session_ok nonce session_id (p.public_bytes priv) pub_s ≡ mac
      → session_info device session_id c2s s2c ≡ ok info
      → client_handshake p psk device priv w ≡ (ok info, with_keys w4 c2s s2c)
  unfolding client_handshake generate_keypair install
  client-ok psk device priv w w1 w2 w3 w4 challenge reply nonce pub_s session_id mac c2s s2c info h
        e1 e2 hn hp e3 e4 e5 hs hm same e6 =
      ground (arith, bytes_eq_refl mac)
