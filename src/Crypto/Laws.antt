-- ===== src/Crypto/Laws.antt =====
-- What the theorems assume of the primitives: documented behaviour of the `cryptography` package.
use usmp_python.Prelude.{ℕ, ◌+◌, ◌≤◌, ◌≡◌, length}
use usmp_python.Errors.{ok}
use usmp_python.Types.{Bytes, CipherSuite}
use usmp_python.Bytes.{IsBytes}
use usmp_python.Crypto.{Primitives}

-- Authenticated encryption with a 32-byte key and a 12-byte nonce.
pub record IsAead (p : Primitives) : Type 0 where
  -- A key of 32 bytes is accepted, and then encryption succeeds.
  pub accepts_key : (s : CipherSuite) (k : Bytes) → length k ≡ 32 → p.aead s k ≡ ok tt
  pub seals :
      (s : CipherSuite) (k n m a : Bytes)
      → length k ≡ 32
      → length n ≡ 12
      → (c : Bytes) × (p.aead_encrypt s k n m a ≡ ok c)
  -- The tag is appended to a ciphertext as long as the plaintext.
  pub sealed_length :
      (s : CipherSuite) (k n m a c : Bytes)
      → p.aead_encrypt s k n m a ≡ ok c
      → length c ≡ length m + 16
  pub sealed_bytes :
      (s : CipherSuite) (k n m a c : Bytes)
      → IsBytes n
      → IsBytes m
      → p.aead_encrypt s k n m a ≡ ok c
      → IsBytes c
  -- Decryption inverts encryption, and accepts nothing else: the tag is recomputed.
  pub opens :
      (s : CipherSuite) (k n m a c : Bytes)
      → p.aead_encrypt s k n m a ≡ ok c
      → p.aead_decrypt s k n c a ≡ ok m
  pub authentic :
      (s : CipherSuite) (k n m a c : Bytes)
      → p.aead_decrypt s k n c a ≡ ok m
      → p.aead_encrypt s k n m a ≡ ok c

-- X25519 agrees on a secret from either side.
pub record IsExchange (p : Primitives) : Type 0 where
  pub agrees : (a b : Bytes) → p.exchange a (p.public_bytes b) ≡ p.exchange b (p.public_bytes a)

-- HKDF derives as many bytes as it is asked for.
pub record IsHkdf (p : Primitives) : Type 0 where
  pub derives :
      (n : ℕ) (salt info secret : Bytes)
      → n ≤ 8160
      → (k : Bytes) × (p.hkdf n salt info secret ≡ ok k) × (length k ≡ n)

-- Public keys and codes of HMAC-SHA256 have 32 bytes.
pub record IsSized (p : Primitives) : Type 0 where
  pub public_length : (a : Bytes) → length (p.public_bytes a) ≡ 32
  pub public_is_bytes : (a : Bytes) → IsBytes (p.public_bytes a)
  pub mac_length : (k m : Bytes) → length (p.hmac_sha256 k m) ≡ 32
  pub mac_is_bytes : (k m : Bytes) → IsBytes (p.hmac_sha256 k m)
