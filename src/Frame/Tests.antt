-- ===== src/Frame/Tests.antt =====
-- Examples for src/usmp/_frame.py.
use usmp_python.Prelude.{◌≡◌, ◌+◌, refl, Bool, true, [], ◌∷◌, ◌++◌, length, arith}
use usmp_python.Errors.{ok, err, crc_error, frame_error}
use usmp_python.Types.{Bytes, PacketType}
use usmp_python.Bytes.{IsBytes, le16}
use usmp_python.Frame.{encode_frame, decode_frame, read_frame}
use usmp_python.Frame.RoundTrip.{
  covered, frame_crc, wire, frame_of, decode-encode, decode_frame-wire,
}
use usmp_python.Frame.Decode.{IsDecoded, decode_frame-IsDecoded}
use usmp_python.Frame.Refusal.{decode_frame_changed}
use usmp_python.Frame.Stream.{Reads, read_frame-Reads}

abbrev hello : Bytes
hello = 0x68 ∷ 0x65 ∷ 0x6c ∷ 0x6c ∷ 0x6f ∷ []

abbrev hello_wire : Bytes
hello_wire = wire PacketType.data_packet hello 7

decode-encode_example :
    (bs : Bytes) × (encode_frame PacketType.data_packet hello 7 2 ≡ ok bs)
    × (length bs ≡ 12 + length hello)
    × ((rest : Bytes) (v : Bool)
        → decode_frame (bs ++ rest) v ≡ ok (frame_of PacketType.data_packet hello 7))
decode-encode_example =
    decode-encode PacketType.data_packet hello 7 (omega arith) (omega arith) (omega arith)

hello_decodes :
    decode_frame (hello_wire ++ hello) true ≡ ok (frame_of PacketType.data_packet hello 7)
hello_decodes =
    decode_frame-wire PacketType.data_packet hello hello 7 true (omega arith) (omega arith)
      (omega arith)

hello-IsBytes : IsBytes (hello_wire ++ hello)
hello-IsBytes = omega arith

decode_frame-IsDecoded_example :
    IsDecoded (hello_wire ++ hello) true (frame_of PacketType.data_packet hello 7)
decode_frame-IsDecoded_example =
    decode_frame-IsDecoded (hello_wire ++ hello) true (frame_of PacketType.data_packet hello 7)
      hello-IsBytes hello_decodes

short_decodes : decode_frame hello true ≡ err frame_error
unfolding decode_frame
short_decodes = refl

abbrev bytes : Bytes → Bytes
bytes xs = xs

decode_frame_changed_example :
    decode_frame
      (covered PacketType.data_packet 7 (length (bytes (0x68 ∷ []) ++ 0x61 ∷ 0x6c ∷ []))
        ++ (le16 (frame_crc PacketType.data_packet (bytes (0x68 ∷ []) ++ 0x65 ∷ 0x6c ∷ []) 7)
            ++ (bytes (0x68 ∷ []) ++ 0x61 ∷ 0x6c ∷ [])))
      true
    ≡ err crc_error
decode_frame_changed_example =
    decode_frame_changed PacketType.data_packet (0x68 ∷ []) (0x6c ∷ []) 0x65 0x61 7 (omega arith)
      (omega arith) (omega arith) (omega arith) (omega arith) (omega arith) (omega arith)

read_frame-Reads_example : Reads hello true (read_frame true hello)
read_frame-Reads_example = read_frame-Reads hello true (omega arith)
