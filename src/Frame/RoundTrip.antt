-- ===== src/Frame/RoundTrip.antt =====
-- `decode_frame` undoes `encode_frame`, and what `encode_frame` does on every input.
use usmp_python.Prelude.{
  ℕ, ◌+◌, ◌≤◌, ◌<◌, ◌≡◌, refl, Bool, true, false, ◌∷◌, ◌++◌, arith, length, ◌∙◌, le→leb, le→ltb,
  lt→ltb, take-append, All-append, length-append, ◌⊎◌, inl, inr,
}
use usmp_python.Errors.{ok, err, payload_error, struct_error}
use usmp_python.Types.{Bytes, PacketType, packet_code, UsmpFrame}
use usmp_python.Types.Codes.{packet_type-packet_code, packet_code-lt}
use usmp_python.Bytes.{IsBytes, le16, le32}
use usmp_python.Bytes.Laws.{le16_value, le32_value}
use usmp_python.Crc.{crc16}
use usmp_python.Crc.Range.{crc16-lt}
use usmp_python.Frame.{compute_frame_crc, pack_hbbi, encode_frame, decode_frame, check_crc}
use usmp_python.Frame.Shape.{decode_frame-fields}

-- The ten bytes that stand before the checksum.
abbrev pub covered : PacketType → ℕ → ℕ → Bytes
covered t seq size = 0xcd ∷ 0xab ∷ 0x02 ∷ packet_code t ∷ (le32 seq ++ le16 size)

abbrev pub frame_crc : PacketType → Bytes → ℕ → ℕ
frame_crc t payload seq = crc16 (covered t seq (length payload) ++ payload)

-- The bytes of a frame.
abbrev pub wire : PacketType → Bytes → ℕ → Bytes
wire t payload seq = covered t seq (length payload) ++ (le16 (frame_crc t payload seq) ++ payload)

abbrev pub frame_of : PacketType → Bytes → ℕ → UsmpFrame
frame_of t payload seq = record {
  magic = 0xabcd;
  version = 2;
  kind = t;
  seq = seq;
  size = length payload;
  crc = frame_crc t payload seq;
  payload = payload;
}

pub covered-IsBytes : (t : PacketType) (seq size : ℕ) → IsBytes (covered t seq size)
covered-IsBytes t seq size = omega (arith, packet_code-lt t)

pub frame_crc-lt :
    (t : PacketType) (payload : Bytes) (seq : ℕ) → IsBytes payload → frame_crc t payload seq < 65536
frame_crc-lt t payload seq h = crc16-lt (covered t seq (length payload) ++ payload) (
    All-append _ (covered t seq (length payload)) payload (covered-IsBytes t seq (length payload))
      h)

pub compute_frame_crc-ok :
    (t : PacketType) (payload : Bytes) (seq size : ℕ)
    → seq < 4294967296
    → size < 65536
    → compute_frame_crc 0xabcd 2 (packet_code t) seq size payload
      ≡ ok (crc16 (covered t seq size ++ payload))
unfolding compute_frame_crc
compute_frame_crc-ok t payload seq size hs hp = simp (
  le→leb seq 0xffff_ffff (omega arith),
  le→leb size 0xffff (omega arith),
  le→leb (packet_code t) 0xff (omega (arith, packet_code-lt t)),
)

-- A payload of at most 480 bytes and a sequence number of 32 bits are encoded as the covered
-- bytes, the checksum over these and the payload, and the payload.
pub encode_frame-wire :
    (t : PacketType) (payload : Bytes) (seq : ℕ)
    → IsBytes payload
    → length payload ≤ 480
    → seq < 4294967296
    → encode_frame t payload seq 2 ≡ ok (wire t payload seq)
unfolding encode_frame
encode_frame-wire t payload seq hb hp hs = simp (
  le→ltb (length payload) 480 hp,
  le→leb seq 0xffff_ffff (omega arith),
  le→leb (length payload) 0xffff (omega arith),
  le→leb (packet_code t) 0xff (omega (arith, packet_code-lt t)),
  le→leb (frame_crc t payload seq) 0xffff (omega (arith, frame_crc-lt t payload seq hb)),
)

-- On a header whose fields fit their widths the checksum test passes.
check-own_crc :
    (v : Bool) (t : PacketType) (payload : Bytes) (seq : ℕ)
    → length payload ≤ 480
    → seq < 4294967296
    → check_crc v
        (frame_crc t payload seq)
        (compute_frame_crc 0xabcd 2 (packet_code t) seq (length payload) payload)
      ≡ ok tt
check-own_crc false t payload seq hp hs = refl
check-own_crc true t payload seq hp hs =
    rw (compute_frame_crc-ok t payload seq (length payload) hs (omega arith)) (ground arith)

-- `decode_frame` reads a frame back from the front of any byte string, with the checksum test or
-- without.
pub decode_frame-wire :
    (t : PacketType) (payload rest : Bytes) (seq : ℕ) (v : Bool)
    → IsBytes payload
    → length payload ≤ 480
    → seq < 4294967296
    → decode_frame (wire t payload seq ++ rest) v ≡ ok (frame_of t payload seq)
decode_frame-wire t payload rest seq v hb hp hs =
    decode_frame-fields _ _ _ _ _ _ _ _ _ _ _ _ (payload ++ rest) v
    ∙ rw (
      le32_value seq hs,
      le16_value (length payload) (omega arith),
      le16_value (frame_crc t payload seq) (frame_crc-lt t payload seq hb),
      length-append payload rest,
      le→ltb (length payload) 480 hp,
      le→ltb (length payload) (length payload + length rest) (omega arith),
      take-append (length payload) payload rest refl,
      check-own_crc v t payload seq hp hs,
      packet_type-packet_code t,
    )

-- Whatever fits a frame is encoded, in twelve bytes and the payload, and `decode_frame` gets it
-- back from the front of any byte string, with the checksum test or without.
pub decode-encode :
    (t : PacketType) (payload : Bytes) (seq : ℕ)
    → IsBytes payload
    → length payload ≤ 480
    → seq < 4294967296
    → (bs : Bytes) × (encode_frame t payload seq 2 ≡ ok bs)
      × (length bs ≡ 12 + length payload)
      × ((rest : Bytes) (v : Bool) → decode_frame (bs ++ rest) v ≡ ok (frame_of t payload seq))
decode-encode t payload seq hb hp hs = (
  wire t payload seq,
  encode_frame-wire t payload seq hb hp hs,
  omega arith,
  λ rest v. decode_frame-wire t payload rest seq v hb hp hs,
)

pack_hbbi-err :
    (version c seq : ℕ)
    → c < 256
    → (4294967296 ≤ seq) ⊎ (256 ≤ version)
    → pack_hbbi 0xabcd version c seq ≡ err struct_error
pack_hbbi-err version c seq hc (inl h) = ground arith
pack_hbbi-err version c seq hc (inr h) = ground arith

-- `encode_frame` raises `PayloadError` on a payload that is too long, whatever the rest, and
-- `struct.error` on a sequence number or a version that does not fit its field.
pub encode_frame_errors :
    (t : PacketType) (payload : Bytes) (seq version : ℕ)
    → (480 < length payload → encode_frame t payload seq version ≡ err payload_error)
      × (length payload ≤ 480
          → (4294967296 ≤ seq) ⊎ (256 ≤ version)
          → encode_frame t payload seq version ≡ err struct_error)
unfolding encode_frame
encode_frame_errors t payload seq version = (
  λ h. simp (lt→ltb 480 (length payload) h),
  λ h wide. simp (
    le→ltb (length payload) 480 h,
    pack_hbbi-err version (packet_code t) seq (packet_code-lt t) wide,
  ),
)
