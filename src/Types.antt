-- ===== src/Types.antt =====
-- src/usmp/types.py: the enumerations, the constants and the records.
pub mod Codes
pub mod Printed
mod Tests
use usmp_python.Prelude.{
  ℕ, ◌+◌, ◌-◌, Bool, not, Option, none, some, List, ◌==◌, if◌then◌else◌, length,
}
use usmp_python.Errors.{Result, ok, err, value_error, raise_if, ◌>>◌, ◌>>=◌}

abbrev pub Bytes : Type 0
Bytes = List ℕ

-- `PacketType`; `data_packet` is `DATA`.
pub data PacketType : Type 0 where
  hello challenge hello_ack session_ok data_packet ping pong bye data_frag : PacketType
  hello_retry rekey error : PacketType

-- `int(type_)`.
abbrev pub packet_code : PacketType → ℕ
packet_code PacketType.hello = 0x01
packet_code PacketType.challenge = 0x02
packet_code PacketType.hello_ack = 0x03
packet_code PacketType.session_ok = 0x04
packet_code PacketType.data_packet = 0x05
packet_code PacketType.ping = 0x06
packet_code PacketType.pong = 0x07
packet_code PacketType.bye = 0x08
packet_code PacketType.data_frag = 0x09
packet_code PacketType.hello_retry = 0x0a
packet_code PacketType.rekey = 0x0b
packet_code PacketType.error = 0xff

-- `PacketType(type_)`, which raises `ValueError` on a number of no member.
unfoldable pub packet_type : ℕ → Result PacketType
packet_type n =
    if n == 0x01
    then ok PacketType.hello
    else if n == 0x02
    then ok PacketType.challenge
    else if n == 0x03
    then ok PacketType.hello_ack
    else if n == 0x04
    then ok PacketType.session_ok
    else if n == 0x05
    then ok PacketType.data_packet
    else if n == 0x06
    then ok PacketType.ping
    else if n == 0x07
    then ok PacketType.pong
    else if n == 0x08
    then ok PacketType.bye
    else if n == 0x09
    then ok PacketType.data_frag
    else if n == 0x0a
    then ok PacketType.hello_retry
    else if n == 0x0b
    then ok PacketType.rekey
    else if n == 0xff
    then ok PacketType.error
    else err value_error

pub data CipherSuite : Type 0 where
  aes256_gcm chacha20_poly1305 : CipherSuite

abbrev pub usmp_magic : ℕ
usmp_magic = 0xabcd

abbrev pub usmp_version : ℕ
usmp_version = 0x02

abbrev pub usmp_header_size : ℕ
usmp_header_size = 12

abbrev pub usmp_max_payload : ℕ
usmp_max_payload = 480

abbrev pub usmp_max_frames : ℕ
usmp_max_frames = 4

abbrev pub usmp_tag_len : ℕ
usmp_tag_len = 16

abbrev pub usmp_nonce_len : ℕ
usmp_nonce_len = 32

abbrev pub usmp_device_id_len : ℕ
usmp_device_id_len = 6

abbrev pub usmp_pub_key_len : ℕ
usmp_pub_key_len = 32

abbrev pub usmp_hmac_len : ℕ
usmp_hmac_len = 32

abbrev pub usmp_session_id_len : ℕ
usmp_session_id_len = 16

abbrev pub usmp_session_key_len : ℕ
usmp_session_key_len = 32

abbrev pub usmp_gcm_nonce_len : ℕ
usmp_gcm_nonce_len = 12

abbrev pub usmp_max_data_len : ℕ
usmp_max_data_len = usmp_max_payload - usmp_tag_len - usmp_gcm_nonce_len

-- `USMPFrame`; `kind` is the field `type`.
pub record UsmpFrame : Type 0 where
  pub magic : ℕ
  pub version : ℕ
  pub kind : PacketType
  pub seq : ℕ
  pub size : ℕ
  pub crc : ℕ
  pub payload : Bytes

pub record SessionInfo : Type 0 where
  pub device_id : Bytes
  pub session_id : Bytes
  pub tx_key : Bytes
  pub rx_key : Bytes
  pub tx_seq : ℕ
  pub rx_seq : ℕ
  pub rx_window_bitmap : ℕ
  pub cipher_suite : CipherSuite

-- The constructor with the defaults of the counters and of the suite, and `__post_init__`.
unfoldable pub session_info : Bytes → Bytes → Bytes → Bytes → Result SessionInfo
session_info device_id session_id tx_key rx_key = do
  raise_if (not (length device_id == usmp_device_id_len)) value_error
  raise_if (not (length session_id == usmp_session_id_len)) value_error
  raise_if (not (length tx_key == usmp_session_key_len)) value_error
  raise_if (not (length rx_key == usmp_session_key_len)) value_error
  ok (record {
    device_id = device_id;
    session_id = session_id;
    tx_key = tx_key;
    rx_key = rx_key;
    tx_seq = 0;
    rx_seq = 0;
    rx_window_bitmap = 0;
    cipher_suite = CipherSuite.aes256_gcm;
  })
