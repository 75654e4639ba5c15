-- ===== src/Frame.antt =====
-- The codec of src/usmp/_frame.py: `compute_frame_crc`, `encode_frame`, `decode_frame` and, over
-- the bytes that an asyncio stream still delivers, `read_frame`.
pub mod Shape
pub mod RoundTrip
pub mod Decode
pub mod Refusal
pub mod Stream
mod Tests
use usmp_python.Prelude.{
  ℕ, ◌+◌, Bool, true, false, not, List, [], ◌∷◌, ◌++◌, ltb, leb, ◌==◌, if◌then◌else◌, length, take,
  drop,
}
use usmp_python.Errors.{
  Exn, Result, ok, err, ◌>>=◌, ◌>>◌, raise_if, frame_error, crc_error, magic_error, version_error,
  payload_error, value_error, incomplete_read_error, is_value_error,
}
use usmp_python.Types.{
  Bytes, PacketType, packet_code, packet_type, UsmpFrame, usmp_magic, usmp_version,
  usmp_header_size, usmp_max_payload,
}
use usmp_python.Bytes.{pack_b, pack_h, pack_i, unpack_h, unpack_i, index}
use usmp_python.Crc.{crc16}

-- `struct.pack("<HBBI", magic, version, type_, seq)`.
abbrev pub pack_hbbi : ℕ → ℕ → ℕ → ℕ → Result Bytes
pack_hbbi magic version type_ seq = do
  m ← pack_h magic
  v ← pack_b version
  t ← pack_b type_
  s ← pack_i seq
  ok (m ++ (v ++ (t ++ s)))

pub compute_frame_crc : ℕ → ℕ → ℕ → ℕ → ℕ → Bytes → Result ℕ
compute_frame_crc magic version type_ seq size payload = do
  header ← pack_hbbi magic version type_ seq
  tail ← pack_h size
  ok (crc16 ((header ++ tail) ++ payload))

-- `struct.pack("<HH", length, crc)`.
abbrev pack_hh : ℕ → ℕ → Result Bytes
pack_hh size crc = do s ← pack_h size; c ← pack_h crc; ok (s ++ c)

unfoldable pub encode_frame : PacketType → Bytes → ℕ → ℕ → Result Bytes
unfolding compute_frame_crc
encode_frame type_ payload seq version = do
  raise_if (ltb usmp_max_payload (length payload)) payload_error
  let size = length payload
  crc ← compute_frame_crc usmp_magic version (packet_code type_) seq size payload
  header ← pack_hbbi usmp_magic version (packet_code type_) seq
  tail ← pack_hh size crc
  ok ((header ++ tail) ++ payload)

-- `if verify_crc:` and the comparison under it.
abbrev check_crc : Bool → ℕ → Result ℕ → Result (Unit {0})
check_crc false crc expected = ok tt
check_crc true crc expected = expected >>= λ e. raise_if (not (crc == e)) crc_error

-- `try: PacketType(type_)`, with `ValueError` turned into `FrameError`.
abbrev or_frame_error {ℓ} : {A : Type ℓ} → Result A → Result A
or_frame_error (ok a) = ok a
or_frame_error (err e) = if is_value_error e then err frame_error else err e

unfoldable pub decode_frame : Bytes → Bool → Result UsmpFrame
unfolding compute_frame_crc
decode_frame bs verify_crc = do
  raise_if (ltb (length bs) usmp_header_size) frame_error
  magic ← unpack_h bs 0
  version ← index bs 2
  type_ ← index bs 3
  seq ← unpack_i bs 4
  size ← unpack_h bs 8
  crc ← unpack_h bs 10
  raise_if (not (magic == usmp_magic)) magic_error
  raise_if (not (version == usmp_version)) version_error
  raise_if (ltb usmp_max_payload size) payload_error
  raise_if (ltb (length bs) (usmp_header_size + size)) payload_error
  let payload = take size (drop usmp_header_size bs)
  check_crc verify_crc crc (compute_frame_crc magic version type_ seq size payload)
  kind ← or_frame_error (packet_type type_)
  ok (record {
    magic = magic;
    version = version;
    kind = kind;
    seq = seq;
    size = size;
    crc = crc;
    payload = payload;
  })

-- A stream that delivers the bytes given and then ends. `readexactly` waits for `n` bytes, and
-- raises `IncompleteReadError` at the end of the stream, which empties the buffer.
abbrev pub readexactly : ℕ → Bytes → Result Bytes × Bytes
readexactly n stream =
    if leb n (length stream)
    then (ok (take n stream), drop n stream)
    else (err incomplete_read_error, [])

-- The tests of `read_frame` on a header, and the length of the payload.
abbrev pub header_size : Bytes → Result ℕ
header_size header = do
  magic ← unpack_h header 0
  raise_if (not (magic == usmp_magic)) magic_error
  size ← unpack_h header 8
  raise_if (ltb usmp_max_payload size) payload_error
  ok size

-- The rest of `read_frame` once the header is there.
abbrev read_payload : ℕ → Bytes → Result Bytes × Bytes
read_payload size stream = if ltb 0 size then readexactly size stream else (ok [], stream)

abbrev decode_read : Bool → Bytes → Result Bytes × Bytes → Result UsmpFrame × Bytes
decode_read verify_crc header (ok payload, rest) =
    (decode_frame (header ++ payload) verify_crc, rest)
decode_read verify_crc header (err e, rest) = (err e, rest)

abbrev read_body : Bool → Result Bytes × Bytes → Result UsmpFrame × Bytes
read_body verify_crc (err e, rest) = (err e, rest)
read_body verify_crc (ok header, rest) = elim (header_size header) [
  | err e ↦ (err e, rest)
  | ok size ↦ decode_read verify_crc header (read_payload size rest)
]

unfoldable pub read_frame : Bool → Bytes → Result UsmpFrame × Bytes
read_frame verify_crc stream = read_body verify_crc (readexactly usmp_header_size stream)
