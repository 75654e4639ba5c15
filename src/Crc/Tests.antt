-- ===== src/Crc/Tests.antt =====
-- Examples for `crc16`: the vectors of tests/test_frame.py and tests/test_golden_vectors.py.
use usmp_python.Prelude.{◌≡◌, refl, [], ◌∷◌}
use usmp_python.Types.{Bytes}
use usmp_python.Crc.{crc16, crc_from, crc_byte, crc_bits, crc_bit}

abbrev hello : Bytes
hello = 0x68 ∷ 0x65 ∷ 0x6c ∷ 0x6c ∷ 0x6f ∷ []

crc16-empty : crc16 [] ≡ 0xffff
unfolding crc16 crc_from
crc16-empty = refl

crc16-hello : crc16 hello ≡ 0x34f6
unfolding crc16 crc_from crc_byte crc_bits crc_bit
crc16-hello = refl
