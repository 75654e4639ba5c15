-- ===== src/Udp/Stream.antt =====
-- The state of `UDPStream`, what `feed_packet` does with a datagram, and reading and closing.
use usmp_python.Prelude.{
  ℕ, ◌+◌, ◌*◌, Bool, true, false, not, ◌&&◌, ◌||◌, Option, none, some, List, [], ◌∷◌, ◌++◌, ltb,
  leb, ◌==◌, if◌then◌else◌, length, take, drop, get_or, bytes_eq,
}
use usmp_python.Errors.{Result, ok, err, incomplete_read_error}
use usmp_python.Types.{Bytes, usmp_header_size, usmp_max_payload}
use usmp_python.Bytes.{le32}
use usmp_python.Crypto.{Primitives}

abbrev pub utack_mac_len : ℕ
utack_mac_len = 8

abbrev pub utack_header_len : ℕ
utack_header_len = 7

abbrev pub max_read_buffer : ℕ
max_read_buffer = 4096

pub record Stream : Type 0 where
  pub is_server : Bool
  pub read_buffer : Bytes
  -- `none` is -1.
  pub last_rx_seq : Option ℕ
  pub last_rx_type : Option ℕ
  pub pending_send_data : Option Bytes
  pub pending_send_seq : Option ℕ
  pub pending_send_type : Option ℕ
  -- `_ack_received_event`.
  pub acked : Bool
  pub closed : Bool
  pub tx_key : Option Bytes
  pub rx_key : Option Bytes
  -- The datagrams sent to the remote address, oldest first, and whether the socket was closed.
  pub sent : List Bytes
  pub transport_closed : Bool

unfoldable pub new_stream : Bool → Stream
new_stream is_server = record {
  is_server = is_server;
  read_buffer = [];
  last_rx_seq = none;
  last_rx_type = none;
  pending_send_data = none;
  pending_send_seq = none;
  pending_send_type = none;
  acked = false;
  closed = false;
  tx_key = none;
  rx_key = none;
  sent = [];
  transport_closed = false;
}

unfoldable pub set_session_keys : Bytes → Bytes → Stream → Stream
set_session_keys tx rx s = record s { tx_key = some tx; rx_key = some rx }

-- `self._transport.sendto(...)`.
abbrev pub sendto : Bytes → Stream → Stream
sendto bs s = record s { sent = s.sent ++ (bs ∷ []) }

-- Bytes and fields of a datagram that is long enough.
abbrev pub byte_at : Bytes → ℕ → ℕ
byte_at bs i = get_or bs i 0

abbrev pub half_at : Bytes → ℕ → ℕ
half_at bs i = byte_at bs i + 256 * byte_at bs (i + 1)

abbrev pub word_at : Bytes → ℕ → ℕ
word_at bs i =
    byte_at bs i
    + 256 * byte_at bs (i + 1)
    + 65536 * byte_at bs (i + 2)
    + 16777216 * byte_at bs (i + 3)

abbrev pub is_some : Option ℕ → ℕ → Bool
is_some none n = false
is_some (some m) n = n == m

abbrev pub is_utack : Bytes → Bool
is_utack bs = leb utack_header_len (length bs) && byte_at bs 0 == 0xac && byte_at bs 1 == 0xac

abbrev pub utack_header : ℕ → ℕ → Bytes
utack_header type_ seq = 0xac ∷ 0xac ∷ type_ ∷ le32 seq

-- Types of the handshake, and HELLO_RETRY.
abbrev pub is_handshake_type : ℕ → Bool
is_handshake_type type_ = ltb type_ 5 || type_ == 0x0a

abbrev pub is_duplicate_after : Bool → ℕ → Option ℕ → Bool
is_duplicate_after is_server type_ none = false
is_duplicate_after is_server type_ (some last) =
    type_ == last || type_ == 0x0a || (type_ == 2 && last == 4) || (is_server && leb type_ last)

abbrev pub is_too_old : ℕ → Option ℕ → Bool
is_too_old seq none = false
is_too_old seq (some last) = leb (seq + 64) last

-- The magic, and one frame to a datagram.
abbrev pub holds_frame : Bytes → Bool
holds_frame bs =
    leb usmp_header_size (length bs)
    && half_at bs 0 == 0xabcd
    && leb (half_at bs 8) usmp_max_payload
    && length bs == usmp_header_size + half_at bs 8

module _ (p : Primitives) where
  unfoldable pub utack_mac : Bytes → Bytes → Bytes
  utack_mac key header = take utack_mac_len (p.hmac_sha256 key header)

  -- The code is added for session-phase types, once there is a key.
  abbrev pub mac_of : Bool → Option Bytes → Bytes → Bytes
  mac_of true (some key) header = utack_mac key header
  mac_of _ _ header = []

  unfoldable pub build_utack : ℕ → ℕ → Stream → Bytes
  build_utack type_ seq s =
      utack_header type_ seq ++ mac_of (leb 5 type_) s.rx_key (utack_header type_ seq)

  abbrev pub mac_valid : Option Bytes → Bytes → Bool
  mac_valid none bs = false
  mac_valid (some key) bs =
      leb (utack_header_len + utack_mac_len) (length bs)
      && bytes_eq (utack_mac key (take utack_header_len bs))
          (take utack_mac_len (drop utack_header_len bs))

  -- A datagram that is a UTACK.
  unfoldable pub feed_utack : Bytes → Stream → Stream
  feed_utack bs s =
      if leb 5 (byte_at bs 2) && not (mac_valid s.tx_key bs)
      then s
      else if is_some s.pending_send_seq (word_at bs 3)
          && is_some s.pending_send_type (byte_at bs 2)
      then record s { acked = true }
      else s

  -- The buffer limit, the acknowledgement, and the buffer.
  unfoldable pub accept_datagram : Bytes → ℕ → ℕ → Stream → Stream
  accept_datagram bs type_ seq s =
      if ltb max_read_buffer (length s.read_buffer + length bs)
      then s
      else record (sendto (build_utack type_ seq s) s) { read_buffer = s.read_buffer ++ bs }

  -- A datagram that holds exactly one frame.
  unfoldable pub feed_frame : Bytes → ℕ → ℕ → Stream → Stream
  feed_frame bs type_ seq s =
      if is_handshake_type type_
      then (if is_duplicate_after s.is_server type_ s.last_rx_type
          then sendto (build_utack type_ seq s) s
          else accept_datagram bs type_ seq (record s { last_rx_type = some type_ }))
      else (if is_too_old seq s.last_rx_seq
          then sendto (build_utack type_ seq s) s
          else accept_datagram bs type_ seq s)

  unfoldable pub feed_packet : Bytes → Stream → Stream
  feed_packet bs s =
      if s.closed
      then s
      else if is_utack bs
      then feed_utack bs s
      else if holds_frame bs
      then feed_frame bs (byte_at bs 3) (word_at bs 4) s
      else s

  -- Datagrams that arrive one after the other.
  unfoldable pub feed_packets : List Bytes → Stream → Stream
  feed_packets [] s = s
  feed_packets (bs ∷ later) s = feed_packets later (feed_packet bs s)

abbrev pub later_seq : ℕ → Option ℕ → Option ℕ
later_seq seq none = some seq
later_seq seq (some last) = if ltb last seq then some seq else some last

unfoldable pub confirm_authenticated : ℕ → Stream → Stream
confirm_authenticated seq s = record s { last_rx_seq = later_seq seq s.last_rx_seq }

-- `none` is a read that waits.
unfoldable pub readexactly : ℕ → Stream → Option (Result Bytes × Stream)
readexactly n s =
    if ltb (length s.read_buffer) n
    then (if s.closed then some (err incomplete_read_error, s) else none)
    else some (ok (take n s.read_buffer), record s { read_buffer = drop n s.read_buffer })

unfoldable pub close : Stream → Stream
close s = record s { closed = true; transport_closed = s.transport_closed || not s.is_server }
