-- ===== src/Crypto/Keys.antt =====
-- The key schedules: both ends derive the same directional keys.
use usmp_python.Prelude.{
  ◌≡◌, refl, Bool, true, false, ◌++◌, arith, length, take, drop, length-take, length-drop,
}
use usmp_python.Errors.{Result, ok, err}
use usmp_python.Types.{Bytes}
use usmp_python.Crypto.{
  Primitives, generate_keypair, derive_session_keys, derive_rekey_keys, rekey_info,
  session_info_label,
}
use usmp_python.Crypto.Laws.{IsExchange, IsHkdf}

-- After a rekey the initiator's transmit key is the responder's receive key and the other way
-- round, if that was so before, they share the session identifier and the salt has arrived.
pub derive_rekey_keys-mirror :
    (p : Primitives) (tx rx session_id salt new_tx new_rx : Bytes)
    → derive_rekey_keys p true tx rx session_id salt ≡ ok (new_tx, new_rx)
    → derive_rekey_keys p false rx tx session_id salt ≡ ok (new_rx, new_tx)
unfolding derive_rekey_keys
derive_rekey_keys-mirror p tx rx session_id salt new_tx new_rx h = ground arith

-- The client and the server derive the same pair of keys, each from its own private key and the
-- other's public one, or both refuse.
pub derive_session_keys-agree :
    (p : Primitives) (laws : IsExchange p) (priv_c priv_s nonce : Bytes)
    → let (_, pub_c) = generate_keypair p priv_c in
      let (_, pub_s) = generate_keypair p priv_s in
      derive_session_keys p priv_c pub_s nonce pub_c pub_s
      ≡ derive_session_keys p priv_s pub_c nonce pub_c pub_s
unfolding generate_keypair derive_session_keys
derive_session_keys-agree p laws priv_c priv_s nonce = rw (laws.agrees priv_c priv_s)

-- New keys have 32 bytes each, on either side.
pub derive_rekey_keys-length :
    (p : Primitives) (laws : IsHkdf p) (initiator : Bool) (tx rx session_id salt : Bytes)
    → (new_tx : Bytes) × (new_rx : Bytes) × (derive_rekey_keys p initiator tx rx session_id salt
        ≡ ok (new_tx, new_rx))
      × (length new_tx ≡ 32)
      × (length new_rx ≡ 32)
unfolding derive_rekey_keys
derive_rekey_keys-length p laws true tx rx session_id salt =
    let (k, e, n) = laws.derives 64 salt (rekey_info ++ session_id) (tx ++ rx) (omega arith) in
    (take 32 k, drop 32 k, rw e, omega (arith, length-take 32 k), omega (arith, length-drop 32 k))
derive_rekey_keys-length p laws false tx rx session_id salt =
    let (k, e, n) = laws.derives 64 salt (rekey_info ++ session_id) (rx ++ tx) (omega arith) in
    (drop 32 k, take 32 k, rw e, omega (arith, length-drop 32 k), omega (arith, length-take 32 k))

-- From either outcome of the exchange.
derived_length :
    (p : Primitives) (laws : IsHkdf p) (priv peer nonce pub_c pub_s c2s s2c : Bytes)
    (r : Result Bytes)
    → p.exchange priv peer ≡ r
    → derive_session_keys p priv peer nonce pub_c pub_s ≡ ok (c2s, s2c)
    → (length c2s ≡ 32) × (length s2c ≡ 32)
unfolding derive_session_keys
derived_length p laws priv peer nonce pub_c pub_s c2s s2c (err e) q h = ground (arith, q)
derived_length p laws priv peer nonce pub_c pub_s c2s s2c (ok secret) q h =
    let (k, e, n) =
      laws.derives 64 nonce (session_info_label ++ (pub_c ++ pub_s)) secret (omega arith) in
    ground (arith, q, e, n, length-take 32 k, length-drop 32 k)

pub derive_session_keys-length :
    (p : Primitives) (laws : IsHkdf p) (priv peer nonce pub_c pub_s c2s s2c : Bytes)
    → derive_session_keys p priv peer nonce pub_c pub_s ≡ ok (c2s, s2c)
    → (length c2s ≡ 32) × (length s2c ≡ 32)
derive_session_keys-length p laws priv peer nonce pub_c pub_s c2s s2c h =
    derived_length p laws priv peer nonce pub_c pub_s c2s s2c (p.exchange priv peer) refl h
