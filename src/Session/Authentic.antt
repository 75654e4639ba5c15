-- ===== src/Session/Authentic.antt =====
-- What `recv` takes for a packet of the peer, over either transport.
use usmp_python.Prelude.{ℕ, ◌≡◌, subst, some, length, length-take, arith}
use usmp_python.Errors.{ok}
use usmp_python.Types.{Bytes, packet_code, UsmpFrame, SessionInfo}
use usmp_python.Crypto.{Primitives, encrypt, decrypt}
use usmp_python.Crypto.Laws.{IsAead}
use usmp_python.Crypto.Seal.{decrypt_iff}
use usmp_python.Session.State.{Session}
use usmp_python.Session.Send.{nonce_of}
use usmp_python.Session.Recv.{Arrival, open_frame, authenticate}

nonce_of-length :
    (session_id : Bytes) (seq : ℕ) (nonce : Bytes)
    → length session_id ≡ 16
    → nonce_of session_id seq ≡ ok nonce
    → length nonce ≡ 12
unfolding nonce_of
nonce_of-length session_id seq nonce h e = ground (arith, length-take 8 session_id)

module _ (p : Primitives) where
  opened :
      (a : Arrival) (s t : Session) (f : UsmpFrame) (m : Bytes)
      → authenticate p a s ≡ (ok (some (f, m)), t)
      → open_frame p s.info f ≡ ok m
  unfolding authenticate
  opened a s t f m h = ground arith

  decrypted :
      (info : SessionInfo) (f : UsmpFrame) (m : Bytes)
      → open_frame p info f ≡ ok m
      → (nonce : Bytes) × (nonce_of info.session_id f.seq ≡ ok nonce)
        × (decrypt p info.rx_key nonce f.seq
              (packet_code f.kind)
              f.version
              f.magic
              f.size
              f.payload
              info.cipher_suite
            ≡ ok m)
  unfolding open_frame
  decrypted info f m h = ground arith

-- In a session with an identifier of 16 bytes, a packet that gets through the first part of a turn
-- of `recv` and whose size is the length of its payload is, whatever the network did, one that
-- `encrypt` makes of the plaintext under the receiving key, with the nonce of its sequence number
-- and with its own type, version and magic.
pub authenticate-encrypt :
    (p : Primitives) (laws : IsAead p) (a : Arrival) (s t : Session) (f : UsmpFrame) (m : Bytes)
    → length s.info.session_id ≡ 16
    → f.size ≡ length f.payload
    → authenticate p a s ≡ (ok (some (f, m)), t)
    → (nonce : Bytes) × (nonce_of s.info.session_id f.seq ≡ ok nonce)
      × (encrypt p s.info.rx_key nonce f.seq
            (packet_code f.kind)
            f.version
            f.magic
            m
            s.info.cipher_suite
          ≡ ok f.payload)
authenticate-encrypt p laws a s t f m long size h =
    let (nonce, e, d) = decrypted p s.info f m (opened p a s t f m h) in
    (
      nonce,
      e,
      (decrypt_iff p laws s.info.rx_key nonce f.seq (packet_code f.kind) f.version f.magic
            s.info.cipher_suite (nonce_of-length s.info.session_id f.seq nonce long e) f.payload
            m).0
          (subst
            (λ n.
              decrypt p s.info.rx_key nonce f.seq (packet_code f.kind) f.version f.magic n f.payload
                s.info.cipher_suite
              ≡ ok m)
            size d),
    )
