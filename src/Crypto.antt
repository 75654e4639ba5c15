-- ===== src/Crypto.antt =====
-- src/usmp/_crypto.py, over the primitives of the `cryptography` package and of `hmac`, which are
-- a parameter. `Laws` states what the theorems assume of them.
pub mod Laws
pub mod Model
pub mod Seal
pub mod Keys
mod Tests
use usmp_python.Prelude.{
  ℕ, ◌+◌, Bool, true, false, not, List, [], ◌∷◌, ◌++◌, ltb, if◌then◌else◌, length, take, drop,
  replicate, bytes_eq,
}
use usmp_python.Errors.{Exn, Result, ok, err, ◌>>=◌, ◌>>◌, raise_if, crypto_error}
use usmp_python.Types.{Bytes, CipherSuite, usmp_tag_len, usmp_session_key_len}
use usmp_python.Bytes.{pack_b, pack_h, pack_i}

-- What the source calls in third-party code. A private key is given by its bytes.
pub record Primitives : Type 0 where
  -- `priv.public_key().public_bytes_raw()`
  pub public_bytes : Bytes → Bytes
  -- `priv.exchange(X25519PublicKey.from_public_bytes(peer))`
  pub exchange : Bytes → Bytes → Result Bytes
  -- `HKDF(SHA256(), length, salt, info).derive(secret)`: the length, the salt, the info, the secret
  pub hkdf : ℕ → Bytes → Bytes → Bytes → Result Bytes
  -- `hmac.new(key, msg, sha256).digest()`
  pub hmac_sha256 : Bytes → Bytes → Bytes
  -- `AESGCM(key)` or `ChaCha20Poly1305(key)`, which refuse a key of the wrong length
  pub aead : CipherSuite → Bytes → Result (Unit {0})
  -- `aead.encrypt(nonce, data, aad)` and `aead.decrypt(nonce, data, aad)` under a key
  pub aead_encrypt : CipherSuite → Bytes → Bytes → Bytes → Bytes → Result Bytes
  pub aead_decrypt : CipherSuite → Bytes → Bytes → Bytes → Bytes → Result Bytes

unfoldable pub build_aad : ℕ → ℕ → ℕ → ℕ → ℕ → Result Bytes
build_aad magic version type_ seq size = do
  m ← pack_h magic
  v ← pack_b version
  t ← pack_b type_
  s ← pack_i seq
  n ← pack_h size
  ok (m ++ (v ++ (t ++ (s ++ n))))

-- `except InvalidTag` and `except Exception` both end in `CryptoError`.
abbrev or_crypto_error : Result Bytes → Result Bytes
or_crypto_error (ok plaintext) = ok plaintext
or_crypto_error (err e) = err crypto_error

abbrev rekey_info : Bytes
rekey_info = b'u' ∷ b's' ∷ b'm' ∷ b'p' ∷ b'-' ∷ b'r' ∷ b'e' ∷ b'k' ∷ b'e' ∷ b'y' ∷ []

abbrev session_info_label : Bytes
session_info_label = b'u' ∷ b's' ∷ b'm' ∷ b'p' ∷ b'-' ∷ b'v' ∷ b'2' ∷ []

module _ (p : Primitives) where
  -- `generate_keypair`, for the private key that was drawn.
  unfoldable pub generate_keypair : Bytes → Bytes × Bytes
  generate_keypair priv = (priv, p.public_bytes priv)

  unfoldable pub derive_session_keys :
      Bytes → Bytes → Bytes → Bytes → Bytes → Result (Bytes × Bytes)
  derive_session_keys priv_key peer_pub nonce pub_c pub_s = do
    shared_secret ← p.exchange priv_key peer_pub
    raise_if (bytes_eq shared_secret (replicate (length shared_secret) 0)) crypto_error
    let info = session_info_label ++ (pub_c ++ pub_s)
    key_material ← p.hkdf (usmp_session_key_len + usmp_session_key_len) nonce info shared_secret
    ok (take usmp_session_key_len key_material, drop usmp_session_key_len key_material)

  unfoldable pub derive_rekey_keys : Bool → Bytes → Bytes → Bytes → Bytes → Result (Bytes × Bytes)
  derive_rekey_keys is_initiator tx_key rx_key session_id salt = do
    let secret = if is_initiator then tx_key ++ rx_key else rx_key ++ tx_key
    key_material ←
        p.hkdf (usmp_session_key_len + usmp_session_key_len) salt (rekey_info ++ session_id) secret
    let low = take usmp_session_key_len key_material
    let high = drop usmp_session_key_len key_material
    ok (if is_initiator then (low, high) else (high, low))

  -- The arguments are those of the source, in its order; the last is `cipher_suite`.
  unfoldable pub encrypt : Bytes → Bytes → ℕ → ℕ → ℕ → ℕ → Bytes → CipherSuite → Result Bytes
  encrypt key nonce seq type_ version magic plaintext suite = do
    let enc_length = 12 + length plaintext + usmp_tag_len
    aad ← build_aad magic version type_ seq enc_length
    p.aead suite key
    ciphertext_and_tag ← p.aead_encrypt suite key nonce plaintext aad
    ok (nonce ++ ciphertext_and_tag)

  unfoldable pub decrypt : Bytes → Bytes → ℕ → ℕ → ℕ → ℕ → ℕ → Bytes → CipherSuite → Result Bytes
  decrypt key nonce seq type_ version magic size nonce_ct_tag suite = do
    raise_if (ltb (length nonce_ct_tag) (12 + usmp_tag_len)) crypto_error
    raise_if (not (bytes_eq (take 12 nonce_ct_tag) nonce)) crypto_error
    aad ← build_aad magic version type_ seq size
    p.aead suite key
    or_crypto_error (p.aead_decrypt suite key nonce (drop 12 nonce_ct_tag) aad)
