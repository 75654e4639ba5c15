-- ===== src/Handshake/Tests.antt =====
-- Examples for the handshake.
use usmp_python.Prelude.{
  suc, ◌≤◌, ◌≡◌, refl, ap, true, [], ◌∷◌, ◌++◌, arith, length, replicate, false, bytes_eq,
}
use usmp_python.Errors.{Result, ok, err, handshake_error}
use usmp_python.Types.{Bytes, PacketType, UsmpFrame, SessionInfo}
use usmp_python.Frame.{decode_frame}
use usmp_python.Transport.{Link}
use usmp_python.Crypto.{derive_session_keys}
use usmp_python.Crypto.Model.{fit, sum_primitives, sum-IsSized, sum-IsExchange, sum-IsHkdf}
use usmp_python.Handshake.Limiter.{check_lockout, lookup, fails_of, forget}
use usmp_python.Handshake.Psk.{PskSource, resolve_psk, get_psk}
use usmp_python.Handshake.State.{Wire}
use usmp_python.Handshake.Server.{compute_hmac, hello_device, hello_key, server_handshake}
use usmp_python.Handshake.Client.{client_handshake}
use usmp_python.Handshake.Setting.{
  Setting, hello_wire, challenge_wire, ack_wire, reply_wire, IsFit, info_with,
}
use usmp_python.Handshake.Agree.{handshake_agrees}
use usmp_python.Handshake.Proof.{IsAck, IsHello}
use usmp_python.Handshake.Verified.{server_handshake-verified, closed_counts}

abbrev given : Setting sum_primitives
given = record {
  device = replicate 6 1;
  psk = replicate 16 9;
  priv_c = replicate 32 3;
  drawn = record { priv = replicate 32 4; nonce = replicate 32 5; session_id = replicate 16 6 };
}

abbrev key : Bytes
key = replicate 32 250

fits : IsFit sum_primitives given key key
unfolding derive_session_keys fit bytes_eq
fits = record {
  device_length = refl;
  device_is_bytes = omega arith;
  nonce_length = refl;
  nonce_is_bytes = omega arith;
  id_length = refl;
  id_is_bytes = omega arith;
  psk_length = omega arith;
  derives = refl;
}

-- A table that holds the device, by its bytes.
abbrev source : PskSource
source = PskSource.table ((replicate 6 1, replicate 16 9) ∷ [])

known : resolve_psk source given.device ≡ ok given.psk
unfolding resolve_psk get_psk bytes_eq
known = refl

abbrev link : Link
link = record {
  is_reliable = true;
  outcomes = [];
  sent = [];
  keys = [];
  confirmed = [];
  closed = false;
}

abbrev server : Wire
server = record {
  link = link;
  reads =
      decode_frame (hello_wire sum_primitives given) false
      ∷ decode_frame (ack_wire sum_primitives given) false
      ∷ [];
  failures = [];
}

abbrev client : Wire
client = record {
  link = link;
  reads =
      decode_frame (challenge_wire sum_primitives given) false
      ∷ decode_frame (reply_wire sum_primitives given) false
      ∷ [];
  failures = [];
}

abbrev host : Bytes
host = 49 ∷ 48 ∷ []

free : check_lockout 0 host [] ≡ ok tt
unfolding check_lockout lookup
free = refl

handshake_agrees_example :
    let (rs, s') = server_handshake sum_primitives source host given.drawn 0 1 server in
    let (rc, c') = client_handshake sum_primitives given.psk given.device given.priv_c client in
    (rs ≡ ok (info_with sum_primitives given key key))
    × (rc ≡ ok (info_with sum_primitives given key key))
    × (s'.link.sent
        ≡ [] ++ (challenge_wire sum_primitives given ∷ reply_wire sum_primitives given ∷ []))
    × (c'.link.sent ≡ [] ++ (hello_wire sum_primitives given ∷ ack_wire sum_primitives given ∷ []))
    × (s'.link.keys ≡ [] ++ ((key, key) ∷ []))
    × (c'.link.keys ≡ [] ++ ((key, key) ∷ []))
    × (s'.failures ≡ forget host [])
handshake_agrees_example =
    handshake_agrees sum_primitives sum-IsSized sum-IsExchange sum-IsHkdf given key key host source
      0 1 server client fits known free refl refl refl refl

abbrev after : Wire
after = (server_handshake sum_primitives source host given.drawn 0 1 server).1

returned :
    server_handshake sum_primitives source host given.drawn 0 1 server
    ≡ (ok (info_with sum_primitives given key key), after)
returned = ap (λ (r : Result SessionInfo). (r, after)) handshake_agrees_example.0

server_handshake-verified_example :
    let info = info_with sum_primitives given key key in
    let pub_s = sum_primitives.public_bytes given.drawn.priv in
    (check_lockout 0 host server.failures ≡ ok tt)
    × (hello : UsmpFrame) × (ack : UsmpFrame) × (psk : Bytes) × (c2s : Bytes) × (s2c : Bytes)
    × (server.reads ≡ ok hello ∷ ok ack ∷ after.reads)
    × IsHello source hello psk
    × (16 ≤ length psk)
    × IsAck
        (compute_hmac sum_primitives psk PacketType.hello_ack given.drawn.nonce
          (hello_device hello)
          (hello_key hello)
          pub_s)
        ack
    × (derive_session_keys sum_primitives given.drawn.priv
          (hello_key hello)
          given.drawn.nonce
          (hello_key hello)
          pub_s
        ≡ ok (c2s, s2c))
    × ((info.device_id ≡ hello_device hello)
        × (info.session_id ≡ given.drawn.session_id)
        × (info.tx_key ≡ s2c)
        × (info.rx_key ≡ c2s))
server_handshake-verified_example =
    server_handshake-verified sum_primitives source host given.drawn 0 1 server after
      (info_with sum_primitives given key key) returned

-- A port scan.
abbrev gone : Wire
gone = record { link = link; reads = []; failures = [] }

closed_counts_example :
    let (r, w') = server_handshake sum_primitives source host given.drawn 0 1 gone in
    (r ≡ err handshake_error)
    × (fails_of (lookup host w'.failures) ≡ suc (fails_of (lookup host gone.failures)))
unfolding lookup
closed_counts_example =
    closed_counts sum_primitives source host given.drawn 0 1 gone refl free (omega arith)
