-- ===== src/Handshake/Verified.antt =====
-- What the server has verified when its handshake returns, and what a lost connection costs.
use usmp_python.Prelude.{ℕ, suc, ◌≤◌, ◌<◌, ◌≡◌, refl, ap, ◌∙◌, List, [], ◌∷◌, arith, length}
use usmp_python.Errors.{Result, ok, err, handshake_error}
use usmp_python.Types.{Bytes, PacketType, UsmpFrame, SessionInfo}
use usmp_python.Types.Codes.{session_info_iff}
use usmp_python.Crypto.{Primitives, derive_session_keys}
use usmp_python.Handshake.Limiter.{lookup, fails_of, check_lockout}
use usmp_python.Handshake.Limiter.Lockout.{record-check_lockout}
use usmp_python.Handshake.Psk.{PskSource, resolve_psk}
use usmp_python.Handshake.State.{Wire, receive}
use usmp_python.Handshake.Server.{
  Draws, compute_hmac, hello_device, hello_key, receive_hello, answer_hello, serve,
  server_handshake, account,
}
use usmp_python.Handshake.Proof.{
  bind-eq-ok, IsAck, IsHello, Answers, receive_hello-eq-ok, answer_hello-eq-ok,
}

resolve_psk-length :
    (source : PskSource) (device psk : Bytes) → resolve_psk source device ≡ ok psk → 16 ≤ length psk
unfolding resolve_psk
resolve_psk-length source device psk h = ground arith

module _ (p : Primitives) (source : PskSource) (key : Bytes) (drawn : Draws) where
  serve-eq-ok :
      (w w' : Wire) (info : SessionInfo)
      → serve p source key drawn w ≡ (ok info, w')
      → (hello : UsmpFrame) × (psk : Bytes) × (later : List (Result UsmpFrame)) × (w.reads
          ≡ ok hello ∷ later)
        × IsHello source hello psk
        × Answers p source key drawn hello psk later w'.reads info
  unfolding serve
  serve-eq-ok w w' info h =
      let (a, v, e, g) =
        bind-eq-ok (receive_hello source w) (λ a. answer_hello p source key drawn a.0 a.1) w w' info
          h in
      let (came, right) = receive_hello-eq-ok source w v a.0 a.1 w.reads refl e in
      (a.0, a.1, v.reads, came, right, answer_hello-eq-ok p source key drawn a.0 a.1 v w' info g)

  account-eq-ok :
      (now : ℕ) (r : Result SessionInfo × Wire) (w' : Wire) (info : SessionInfo)
      → account p source key drawn now r ≡ (ok info, w')
      → r ≡ (ok info, w')
  account-eq-ok now (ok i, w) w' info h = h
  account-eq-ok now (err e, w) w' info h = ground arith

  unlocked :
      (now failed_at : ℕ) (w w' : Wire) (info : SessionInfo)
      → server_handshake p source key drawn now failed_at w ≡ (ok info, w')
      → (check_lockout now key w.failures ≡ ok tt) × (serve p source key drawn w ≡ (ok info, w'))
  unfolding server_handshake
  unlocked now failed_at w w' info h =
      ground (arith, account-eq-ok failed_at (serve p source key drawn w) w' info)

-- When `server_handshake` returns, whatever the network did: the address was not locked out; a
-- HELLO of one of the two sizes was read, whose device has a key of at least 16 bytes; then a
-- HELLO_ACK was read with the code that this key makes of the server's nonce, the device and the
-- two public keys; and the session is of that device, with the identifier that was drawn and the
-- derived keys, the server sending under the second one.
pub server_handshake-verified :
    (p : Primitives) (source : PskSource) (key : Bytes) (drawn : Draws) (now failed_at : ℕ)
    (w w' : Wire) (info : SessionInfo)
    → server_handshake p source key drawn now failed_at w ≡ (ok info, w')
    → let pub_s = p.public_bytes drawn.priv in
      (check_lockout now key w.failures ≡ ok tt)
      × (hello : UsmpFrame) × (ack : UsmpFrame) × (psk : Bytes) × (c2s : Bytes) × (s2c : Bytes)
      × (w.reads ≡ ok hello ∷ ok ack ∷ w'.reads)
      × IsHello source hello psk
      × (16 ≤ length psk)
      × IsAck
          (compute_hmac p psk PacketType.hello_ack drawn.nonce
            (hello_device hello)
            (hello_key hello)
            pub_s)
          ack
      × (derive_session_keys p drawn.priv (hello_key hello) drawn.nonce (hello_key hello) pub_s
          ≡ ok (c2s, s2c))
      × ((info.device_id ≡ hello_device hello)
          × (info.session_id ≡ drawn.session_id)
          × (info.tx_key ≡ s2c)
          × (info.rx_key ≡ c2s))
server_handshake-verified p source key drawn now failed_at w w' info h =
    let (free, served) = unlocked p source key drawn now failed_at w w' info h in
    let (hello, psk, later, came, right, answers) =
      serve-eq-ok p source key drawn w w' info served in
    let (keys, ack, next, derived, proved, made) = answers in
    let fields =
      (session_info_iff (hello_device hello) drawn.session_id keys.1 keys.0).1 info made in
    (
      free,
      hello,
      ack,
      psk,
      keys.0,
      keys.1,
      came ∙ ap (λ rest. ok hello ∷ rest) next,
      right,
      resolve_psk-length source (hello_device hello) psk right.2,
      proved,
      derived,
      (fields.0, fields.1, fields.2, fields.3),
    )

closed_serve :
    (p : Primitives) (source : PskSource) (key : Bytes) (drawn : Draws) (w : Wire)
    → w.reads ≡ []
    → serve p source key drawn w ≡ (err handshake_error, record w { reads = [] })
unfolding serve receive_hello receive
closed_serve p source key drawn w e = ground arith

-- A client that closes the connection before its HELLO counts as a failed one: the handshake
-- raises `HandshakeError`, and the count of the address goes up by one.
pub closed_counts :
    (p : Primitives) (source : PskSource) (key : Bytes) (drawn : Draws) (now failed_at : ℕ)
    (w : Wire)
    → w.reads ≡ []
    → check_lockout now key w.failures ≡ ok tt
    → suc (fails_of (lookup key w.failures)) < 1029
    → let (r, w') = server_handshake p source key drawn now failed_at w in
      (r ≡ err handshake_error)
      × (fails_of (lookup key w'.failures) ≡ suc (fails_of (lookup key w.failures)))
unfolding server_handshake
closed_counts p source key drawn now failed_at w closed free few =
    let (kept, counted, _) = record-check_lockout failed_at 0 key w.failures few in
    (
      ground (arith, closed_serve p source key drawn w closed),
      ground (arith, closed_serve p source key drawn w closed),
    )
