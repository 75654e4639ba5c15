-- ===== src/Bytes.antt =====
-- The calls of the `struct` module that the source makes, all little-endian, and indexing of
-- `bytes`. A byte string is a list of numbers below 256.
pub mod Laws
use usmp_python.Prelude.{
  ℕ, ◌+◌, ◌*◌, ◌/◌, ◌%◌, ◌<◌, List, [], ◌∷◌, leb, ltb, if◌then◌else◌, length, get_or, All,
}
use usmp_python.Errors.{Result, ok, err, struct_error, index_error}
use usmp_python.Types.{Bytes}

abbrev pub IsBytes : Bytes → Type 0
IsBytes = All (λ b. b < 256)

abbrev pub le16 : ℕ → Bytes
le16 v = v % 256 ∷ v / 256 % 256 ∷ []

abbrev pub le32 : ℕ → Bytes
le32 v = v % 256 ∷ v / 256 % 256 ∷ v / 65536 % 256 ∷ v / 16777216 % 256 ∷ []

-- `struct.pack("<B", v)`, `"<H"` and `"<I"`: a number out of range raises `struct.error`.
abbrev pub pack_b : ℕ → Result Bytes
pack_b v = if leb v 0xff then ok (v ∷ []) else err struct_error

abbrev pub pack_h : ℕ → Result Bytes
pack_h v = if leb v 0xffff then ok (le16 v) else err struct_error

abbrev pub pack_i : ℕ → Result Bytes
pack_i v = if leb v 0xffff_ffff then ok (le32 v) else err struct_error

-- `struct.unpack_from("<H", data, i)[0]` and `"<I"`: a buffer that is too short raises.
abbrev pub unpack_h : Bytes → ℕ → Result ℕ
unpack_h bs i =
    if leb (i + 2) (length bs)
    then ok (get_or bs i 0 + 256 * get_or bs (i + 1) 0)
    else err struct_error

abbrev pub unpack_i : Bytes → ℕ → Result ℕ
unpack_i bs i =
    if leb (i + 4) (length bs)
    then ok (
        get_or bs i 0
        + 256 * get_or bs (i + 1) 0
        + 65536 * get_or bs (i + 2) 0
        + 16777216 * get_or bs (i + 3) 0)
    else err struct_error

-- `data[i]`.
abbrev pub index : Bytes → ℕ → Result ℕ
index bs i = if ltb i (length bs) then ok (get_or bs i 0) else err index_error
