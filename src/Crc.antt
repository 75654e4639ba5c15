-- ===== src/Crc.antt =====
-- `crc16` of src/usmp/_frame.py.
pub mod Range
pub mod Detect
mod Tests
use usmp_python.Prelude.{ℕ, zero, suc, ◌/◌, List, [], ◌∷◌, bit_and, bit_xor, ◌==◌, if◌then◌else◌}
use usmp_python.Types.{Bytes}

-- One turn of the inner loop; `crc & 1` is tested as a truth value.
pub crc_bit : ℕ → ℕ
crc_bit crc = if bit_and crc 1 == 0 then crc / 2 else bit_xor (crc / 2) 0xa001

-- `for _ in range(n)`.
pub crc_bits : ℕ → ℕ → ℕ
crc_bits zero crc = crc
crc_bits (suc n) crc = crc_bits n (crc_bit crc)

pub crc_byte : ℕ → ℕ → ℕ
unfolding crc_bit crc_bits
crc_byte crc byte = crc_bits 8 (bit_xor crc byte)

-- `for byte in data`, from a given register.
pub crc_from : ℕ → Bytes → ℕ
crc_from crc [] = crc
crc_from crc (b ∷ bs) = crc_from (crc_byte crc b) bs

unfoldable pub crc16 : Bytes → ℕ
unfolding crc_byte crc_from
crc16 bs = crc_from 0xffff bs
