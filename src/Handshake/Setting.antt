-- ===== src/Handshake/Setting.antt =====
-- The inputs of a handshake between two ends that share a key, and its messages.
use usmp_python.Prelude.{◌≤◌, ◌≡◌, ◌++◌, length}
use usmp_python.Errors.{ok}
use usmp_python.Types.{Bytes, PacketType, SessionInfo, CipherSuite}
use usmp_python.Bytes.{IsBytes}
use usmp_python.Frame.RoundTrip.{wire}
use usmp_python.Crypto.{Primitives, derive_session_keys}
use usmp_python.Handshake.Server.{Draws, compute_hmac}

-- What the two ends are given.
pub record Setting (p : Primitives) : Type 0 where
  pub device : Bytes
  pub psk : Bytes
  pub priv_c : Bytes
  pub drawn : Draws

module _ (p : Primitives) (x : Setting p) where
  abbrev pub pub_c : Bytes
  pub_c = p.public_bytes x.priv_c

  abbrev pub pub_s : Bytes
  pub_s = p.public_bytes x.drawn.priv

  abbrev pub challenge : Bytes
  challenge = x.drawn.nonce ++ pub_s

  abbrev pub mac_c : Bytes
  mac_c = compute_hmac p x.psk PacketType.hello_ack x.drawn.nonce x.device pub_c pub_s

  abbrev pub reply : Bytes
  reply =
      x.drawn.session_id
      ++ compute_hmac p x.psk PacketType.session_ok x.drawn.nonce x.drawn.session_id pub_c pub_s

  -- The messages as they stand on the wire.
  abbrev pub hello_wire : Bytes
  hello_wire = wire PacketType.hello (x.device ++ pub_c) 0

  abbrev pub challenge_wire : Bytes
  challenge_wire = wire PacketType.challenge challenge 0

  abbrev pub ack_wire : Bytes
  ack_wire = wire PacketType.hello_ack mac_c 2

  abbrev pub reply_wire : Bytes
  reply_wire = wire PacketType.session_ok reply 0

  -- The inputs have the sizes of the protocol, and the keys can be derived.
  pub record IsFit (c2s s2c : Bytes) : Type 0 where
    pub device_length : length x.device ≡ 6
    pub device_is_bytes : IsBytes x.device
    pub nonce_length : length x.drawn.nonce ≡ 32
    pub nonce_is_bytes : IsBytes x.drawn.nonce
    pub id_length : length x.drawn.session_id ≡ 16
    pub id_is_bytes : IsBytes x.drawn.session_id
    pub psk_length : 16 ≤ length x.psk
    pub derives : derive_session_keys p x.priv_c pub_s x.drawn.nonce pub_c pub_s ≡ ok (c2s, s2c)

  abbrev pub info_with : Bytes → Bytes → SessionInfo
  info_with tx rx = record {
    device_id = x.device;
    session_id = x.drawn.session_id;
    tx_key = tx;
    rx_key = rx;
    tx_seq = 0;
    rx_seq = 0;
    rx_window_bitmap = 0;
    cipher_suite = CipherSuite.aes256_gcm;
  }
