-- ===== src/Crc/Range.antt =====
-- The register of `crc16` stays a 16-bit number.
use usmp_python.Prelude.{ℕ, zero, suc, ◌/◌, ◌<◌, [], ◌∷◌, arith, bit_xor}
use usmp_python.Prelude.Bits.{bit_xor-lt}
use usmp_python.Types.{Bytes}
use usmp_python.Bytes.{IsBytes}
use usmp_python.Crc.{crc_bit, crc_bits, crc_byte, crc_from, crc16}

pub crc_bit-lt : (c : ℕ) → c < 65536 → crc_bit c < 65536
unfolding crc_bit
crc_bit-lt c h = ground (arith, bit_xor-lt 16 (c / 2) 0xa001)

pub crc_bits-lt : (n c : ℕ) → c < 65536 → crc_bits n c < 65536
unfolding crc_bits
crc_bits-lt zero c h = h
crc_bits-lt (suc n) c h = crc_bits-lt n (crc_bit c) (crc_bit-lt c h)

pub crc_byte-lt : (c b : ℕ) → c < 65536 → b < 256 → crc_byte c b < 65536
crc_byte-lt c b h hb =
    unfold crc_byte in crc_bits-lt 8 (bit_xor c b) (bit_xor-lt 16 c b h (omega arith))

pub crc_from-lt : (c : ℕ) (bs : Bytes) → c < 65536 → IsBytes bs → crc_from c bs < 65536
unfolding crc_from
crc_from-lt c [] h hb = h
crc_from-lt c (b ∷ bs) h hb = crc_from-lt (crc_byte c b) bs (crc_byte-lt c b h hb.0) hb.1

pub crc16-lt : (bs : Bytes) → IsBytes bs → crc16 bs < 65536
crc16-lt bs h = unfold crc16 in crc_from-lt 0xffff bs (omega arith) h
