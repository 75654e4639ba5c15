-- ===== src/Udp/Read.antt =====
-- `UDPStream.read_frame`: the `read_frame` of src/usmp/_frame.py with the stream's `readexactly`,
-- which waits where a reader of TCP would see the end. `none` is a read that waits.
use usmp_python.Prelude.{ℕ, Bool, Option, none, some, [], ◌++◌, ltb, if◌then◌else◌}
use usmp_python.Errors.{Result, ok, err}
use usmp_python.Types.{Bytes, UsmpFrame, usmp_header_size}
use usmp_python.Frame.{decode_frame, header_size}
use usmp_python.Udp.Stream.{Stream, readexactly}

abbrev pub decode_read :
    Bool → Bytes → Option (Result Bytes × Stream) → Option (Result UsmpFrame × Stream)
decode_read verify_crc header none = none
decode_read verify_crc header (some (err e, s)) = some (err e, s)
decode_read verify_crc header (some (ok payload, s)) =
    some (decode_frame (header ++ payload) verify_crc, s)

abbrev pub read_payload : ℕ → Stream → Option (Result Bytes × Stream)
read_payload size s = if ltb 0 size then readexactly size s else some (ok [], s)

abbrev pub read_sized : Bool → Bytes → Stream → Result ℕ → Option (Result UsmpFrame × Stream)
read_sized verify_crc header s (err e) = some (err e, s)
read_sized verify_crc header s (ok size) = decode_read verify_crc header (read_payload size s)

abbrev pub read_body : Bool → Option (Result Bytes × Stream) → Option (Result UsmpFrame × Stream)
read_body verify_crc none = none
read_body verify_crc (some (err e, s)) = some (err e, s)
read_body verify_crc (some (ok header, s)) = read_sized verify_crc header s (header_size header)

unfoldable pub read_frame : Bool → Stream → Option (Result UsmpFrame × Stream)
read_frame verify_crc s = read_body verify_crc (readexactly usmp_header_size s)
