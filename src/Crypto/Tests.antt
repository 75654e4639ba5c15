-- ===== src/Crypto/Tests.antt =====
-- Examples for src/usmp/_crypto.py; the additional data is a vector of tests/golden_vectors.json.
use usmp_python.Prelude.{◌≡◌, ◌↔◌, refl, true, [], ◌∷◌, ◌++◌, bytes_eq, replicate, arith}
use usmp_python.Errors.{ok, err, crypto_error}
use usmp_python.Types.{Bytes, CipherSuite}
use usmp_python.Crypto.{build_aad, encrypt, decrypt, derive_rekey_keys}
use usmp_python.Crypto.Seal.{Fits, decrypt_iff}
use usmp_python.Crypto.Model.{sum_primitives, sum-IsAead}

abbrev aad : Bytes
aad = 0xcd ∷ 0xab ∷ 0x02 ∷ 0x05 ∷ 0x00 ∷ 0x00 ∷ 0x00 ∷ 0x00 ∷ 0x64 ∷ 0x00 ∷ []

build_aad-vector : build_aad 43981 2 5 0 100 ≡ ok aad
unfolding build_aad
build_aad-vector = refl

abbrev key : Bytes
key = replicate 32 7

abbrev nonce : Bytes
nonce = replicate 12 1

abbrev message : Bytes
message = 1 ∷ 2 ∷ 3 ∷ []

abbrev fits : Fits 0xabcd 2 5 9 31
fits = record {
  magic_fits = omega arith;
  version_fits = omega arith;
  type_fits = omega arith;
  seq_fits = omega arith;
  size_fits = omega arith;
}

-- The message under the tag that the examples' primitives compute.
abbrev packet : Bytes
packet = nonce ++ (message ++ replicate 16 153)

encrypt-message :
    encrypt sum_primitives key nonce 9 5 2 0xabcd message CipherSuite.chacha20_poly1305 ≡ ok packet
unfolding encrypt build_aad
encrypt-message = refl

decrypt_iff_example :
    (decrypt sum_primitives key nonce 9 5 2 0xabcd 31 packet CipherSuite.chacha20_poly1305
      ≡ ok message)
    ↔ (encrypt sum_primitives key nonce 9 5 2 0xabcd message CipherSuite.chacha20_poly1305
        ≡ ok packet)
decrypt_iff_example =
    decrypt_iff sum_primitives sum-IsAead key nonce 9 5 2 0xabcd CipherSuite.chacha20_poly1305 refl
      packet message

bad_tag :
    decrypt sum_primitives key nonce 9 5 2 0xabcd 31 (replicate 31 1) CipherSuite.aes256_gcm
    ≡ err crypto_error
unfolding decrypt build_aad bytes_eq
bad_tag = refl

abbrev session_id : Bytes
session_id = replicate 16 8

abbrev salt : Bytes
salt = replicate 32 5

rekeyed :
    derive_rekey_keys sum_primitives true key nonce session_id salt
    ≡ ok (replicate 32 30, replicate 32 30)
unfolding derive_rekey_keys
rekeyed = refl
