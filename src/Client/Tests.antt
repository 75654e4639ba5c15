-- ===== src/Client/Tests.antt =====
-- Examples for the client.
use usmp_python.Prelude.{
  ◌≡◌, refl, ap, true, false, none, some, List, [], ◌∷◌, ◌++◌, arith, map, replicate, bytes_eq,
}
use usmp_python.Errors.{ok, err, not_connected_error, usmp_timeout_error, timeout_error}
use usmp_python.Types.{Bytes, UsmpFrame}
use usmp_python.Errors.{Result}
use usmp_python.Crypto.{derive_session_keys, generate_keypair}
use usmp_python.Crc.{crc16}
use usmp_python.Crypto.Model.{
  fit, sum_primitives, sum-IsAead, sum-IsSized, sum-IsExchange, sum-IsHkdf,
}
use usmp_python.Frame.{decode_frame, encode_frame}
use usmp_python.Transport.{Link, write_frame}
use usmp_python.Session.State.{Session, new_session}
use usmp_python.Session.Send.{send, ping}
use usmp_python.Session.Recv.{Arrival, recv}
use usmp_python.Session.Exchange.{Read}
use usmp_python.Session.Deliver.{sent_since}
use usmp_python.Handshake.Limiter.{check_lockout, lookup}
use usmp_python.Handshake.Psk.{PskSource, resolve_psk, get_psk}
use usmp_python.Handshake.State.{Wire, transmit, receive}
use usmp_python.Handshake.Server.{server_handshake}
use usmp_python.Handshake.Client.{client_handshake, receive_challenge}
use usmp_python.Handshake.Setting.{
  Setting, hello_wire, challenge_wire, ack_wire, reply_wire, IsFit, info_with,
}
use usmp_python.Handshake.Agree.{handshake_agrees}
use usmp_python.Client.{Client, connect, ensure_connected, disconnect}
use usmp_python.Client.Deliver.{opened, connect-ok, connect-send-recv}

abbrev met : Setting sum_primitives
met = record {
  device = replicate 6 2;
  psk = replicate 20 5;
  priv_c = replicate 32 1;
  drawn = record { priv = replicate 32 8; nonce = replicate 32 9; session_id = replicate 16 3 };
}

abbrev derived : Bytes
derived = replicate 32 250

fitting : IsFit sum_primitives met derived derived
unfolding derive_session_keys fit bytes_eq
fitting = record {
  device_length = refl;
  device_is_bytes = omega arith;
  nonce_length = refl;
  nonce_is_bytes = omega arith;
  id_length = refl;
  id_is_bytes = omega arith;
  psk_length = omega arith;
  derives = refl;
}

abbrev shared : PskSource
shared = PskSource.table ((met.device, met.psk) ∷ [])

registered : resolve_psk shared met.device ≡ ok met.psk
unfolding resolve_psk get_psk bytes_eq
registered = refl

unlocked : check_lockout 0 (1 ∷ []) [] ≡ ok tt
unfolding check_lockout lookup
unlocked = refl

abbrev channel : Link
channel = record {
  is_reliable = true;
  outcomes = [];
  sent = [];
  keys = [];
  confirmed = [];
  closed = false;
}

abbrev from_client : Wire
from_client = record {
  link = channel;
  reads =
      decode_frame (hello_wire sum_primitives met) false
      ∷ decode_frame (ack_wire sum_primitives met) false
      ∷ [];
  failures = [];
}

abbrev from_server : List (Result UsmpFrame)
from_server =
    decode_frame (challenge_wire sum_primitives met) false
    ∷ decode_frame (reply_wire sum_primitives met) false
    ∷ []

abbrev fresh : Client
fresh = record {
  psk = met.psk;
  device_id = met.device;
  session = none;
  has_transport = false;
  dropped = [];
}

abbrev begun : Session
begun =
    new_session
      (client_handshake sum_primitives met.psk met.device met.priv_c
        (opened channel from_server)).1.link
      (info_with sum_primitives met derived derived) 4

abbrev served : Session
served =
    new_session (server_handshake sum_primitives shared (1 ∷ []) met.drawn 0 1 from_client).1.link
      (info_with sum_primitives met derived derived) 5

abbrev arriving : List Arrival
arriving =
    map (λ w. record { frame = decode_frame w true; read_at = 1; counted_at = 2 })
      (sent_since begun (send sum_primitives (10 ∷ 20 ∷ []) begun).1)

read_all :
    (ws : List Bytes)
    → Read ws (map (λ w. record { frame = decode_frame w true; read_at = 1; counted_at = 2 }) ws)
read_all [] = tt
read_all (w ∷ ws) = (refl, read_all ws)

agreed_infos :
    ((server_handshake sum_primitives shared (1 ∷ []) met.drawn 0 1 from_client).0
      ≡ ok (info_with sum_primitives met derived derived))
    × ((client_handshake sum_primitives met.psk met.device met.priv_c
          (opened channel from_server)).0
        ≡ ok (info_with sum_primitives met derived derived))
agreed_infos =
    let all =
      handshake_agrees sum_primitives sum-IsSized sum-IsExchange sum-IsHkdf met derived derived
        (1 ∷ []) shared 0 1 from_client (opened channel from_server) fitting registered unlocked
        refl refl refl refl in
    (all.0, all.1)

held : (connect sum_primitives (ok channel) from_server met.priv_c 4 fresh).1.session ≡ some begun
held =
    ap (λ r. r.1.session)
      (connect-ok sum_primitives channel from_server met.priv_c 4 fresh
        (info_with sum_primitives met derived derived) agreed_infos.1)

connect-send-recv_example :
    let (r, c') = connect sum_primitives (ok channel) from_server met.priv_c 4 fresh in
    (r ≡ ok tt)
    × ((ensure_connected (send sum_primitives (10 ∷ 20 ∷ [])) c').0 ≡ ok tt)
    × (r' : Session) × (recv sum_primitives none 6 (arriving ++ []) served
        ≡ (ok (some (10 ∷ 20 ∷ [])), [], r'))
connect-send-recv_example =
    connect-send-recv sum_primitives sum-IsAead sum-IsSized sum-IsExchange sum-IsHkdf met derived
      derived (1 ∷ []) shared 0 1 4 5 from_client channel from_server fresh begun
      (info_with sum_primitives met derived derived) (10 ∷ 20 ∷ []) none 6 arriving [] fitting
      registered unlocked refl refl refl refl refl refl refl refl held agreed_infos.0 (omega arith)
      (omega arith) (read_all (sent_since begun (send sum_primitives (10 ∷ 20 ∷ []) begun).1))

-- Without a session every call raises `NotConnectedError`, and `disconnect` does nothing.
nobody : ensure_connected (ping sum_primitives) fresh ≡ (err not_connected_error, fresh)
unfolding ensure_connected
nobody = refl

no_session : disconnect sum_primitives fresh ≡ (ok tt, fresh)
unfolding disconnect
no_session = refl

-- A server that does not answer in time.
late :
    (connect sum_primitives (ok channel) (err timeout_error ∷ []) met.priv_c 4 fresh).0
    ≡ err usmp_timeout_error
unfolding connect client_handshake transmit write_frame encode_frame generate_keypair fit crc16
    receive_challenge receive
late = refl
