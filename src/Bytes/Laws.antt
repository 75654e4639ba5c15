-- ===== src/Bytes/Laws.antt =====
-- Little-endian encodings are bytes, and determine the number.
use usmp_python.Prelude.{ℕ, ◌+◌, ◌*◌, ◌/◌, ◌%◌, ◌<◌, ◌≡◌, arith}
use usmp_python.Bytes.{IsBytes, le16, le32}

pub le16-IsBytes : (v : ℕ) → IsBytes (le16 v)
le16-IsBytes v = omega arith

pub le32-IsBytes : (v : ℕ) → IsBytes (le32 v)
le32-IsBytes v = omega arith

pub le16_value : (v : ℕ) → v < 65536 → v % 256 + 256 * (v / 256 % 256) ≡ v
le16_value v h = omega arith

pub le32_value :
    (v : ℕ)
    → v < 4294967296
    → v % 256 + 256 * (v / 256 % 256) + 65536 * (v / 65536 % 256) + 16777216 * (v / 16777216 % 256)
      ≡ v
le32_value v h = omega arith
