-- ===== src/Session/Packet.antt =====
-- One packet: `_send_encrypted_locked` puts a frame on the wire that the peer's `recv` decodes and
-- opens to the plaintext.
use usmp_python.Prelude.{
  ℕ, ◌+◌, ◌≤◌, ◌<◌, ◌≡◌, refl, sym, ap, ◌∙◌, true, [], ◌∷◌, ◌++◌, arith, length, take, length-take,
  All-append, All-take, append-nil,
}
use usmp_python.Errors.{Result, ok}
use usmp_python.Types.{Bytes, PacketType, packet_code, UsmpFrame, SessionInfo}
use usmp_python.Types.Codes.{packet_code-lt}
use usmp_python.Bytes.{IsBytes, le32}
use usmp_python.Bytes.Laws.{le32-IsBytes}
use usmp_python.Frame.{decode_frame}
use usmp_python.Frame.RoundTrip.{wire, frame_of, decode_frame-wire}
use usmp_python.Crypto.{Primitives, encrypt, decrypt}
use usmp_python.Crypto.Laws.{IsAead}
use usmp_python.Crypto.Seal.{Fits, encrypt-total, sealed_length, sealed-IsBytes, decrypt_iff}
use usmp_python.Transport.{write_frame}
use usmp_python.Transport.Write.{with_sent, write_frame-wire}
use usmp_python.Session.State.{Session}
use usmp_python.Session.Send.{max_seq, nonce_of, seal, write, send_encrypted_locked}
use usmp_python.Session.Recv.{open_frame}

-- A session that can seal, over a network that delivers.
pub record IsReady (s : Session) : Type 0 where
  pub key_length : length s.info.tx_key ≡ 32
  pub id_length : length s.info.session_id ≡ 16
  pub id_bytes : IsBytes s.info.session_id
  pub delivers : s.link.outcomes ≡ []

-- The session after a packet has gone out as these bytes.
abbrev pub sealed : Session → Bytes → Session
sealed s w = record s {
  info = record s.info { tx_seq = s.info.tx_seq + 1 };
  link = record s.link { outcomes = []; sent = s.link.sent ++ (w ∷ []) };
  seals = (s.info.tx_key, s.info.tx_seq) ∷ s.seals;
}

-- What the peer finds in the bytes of a packet.
pub record Carries (p : Primitives) (s : Session) (t : PacketType) (m : Bytes) (w : Bytes)
    (f : UsmpFrame) : Type 0 where
  pub decodes : decode_frame w true ≡ ok f
  pub kind_is : f.kind ≡ t
  pub seq_is : f.seq ≡ s.info.tx_seq
  pub opens :
      (info : SessionInfo)
      → info.rx_key ≡ s.info.tx_key
      → info.session_id ≡ s.info.session_id
      → info.cipher_suite ≡ s.info.cipher_suite
      → open_frame p info f ≡ ok m

abbrev nonce_bytes : Bytes → ℕ → Bytes
nonce_bytes session_id seq = le32 seq ++ take 8 session_id

nonce_of-ok :
    (session_id : Bytes) (seq : ℕ)
    → seq ≤ max_seq
    → nonce_of session_id seq ≡ ok (nonce_bytes session_id seq)
unfolding nonce_of
nonce_of-ok session_id seq h = ground arith

module _ (p : Primitives) (laws : IsAead p) (t : PacketType) (m : Bytes) (s : Session)
    (ready : IsReady s) (room : s.info.tx_seq < max_seq) (fits : length m ≤ 452)
    (bytes : IsBytes m) where
  abbrev seq : ℕ
  seq = s.info.tx_seq

  abbrev nonce : Bytes
  nonce = nonce_bytes s.info.session_id seq

  nonce-length : length nonce ≡ 12
  nonce-length = omega (arith, length-take 8 s.info.session_id, ready.id_length)

  nonce-IsBytes : IsBytes nonce
  nonce-IsBytes =
      All-append _ (le32 seq) (take 8 s.info.session_id) (le32-IsBytes seq)
        (All-take _ 8 s.info.session_id ready.id_bytes)

  header_fits : Fits 0xabcd 2 (packet_code t) seq (12 + length m + 16)
  header_fits = omega (arith, packet_code-lt t)

  abbrev sealing : Result Bytes
  sealing = encrypt p s.info.tx_key nonce seq (packet_code t) 2 0xabcd m s.info.cipher_suite

  ciphertext : (d : Bytes) × (sealing ≡ ok d)
  ciphertext =
      encrypt-total p laws s.info.tx_key nonce seq (packet_code t) 2 0xabcd s.info.cipher_suite
        nonce-length m ready.key_length header_fits

  module _ (d : Bytes) (e : sealing ≡ ok d) where
    d_length : length d ≡ 12 + length m + 16
    d_length =
        sealed_length p laws s.info.tx_key nonce seq (packet_code t) 2 0xabcd s.info.cipher_suite
          nonce-length m d e

    d-IsBytes : IsBytes d
    d-IsBytes =
        sealed-IsBytes p laws s.info.tx_key nonce seq (packet_code t) 2 0xabcd s.info.cipher_suite
          nonce-length m d nonce-IsBytes bytes e

    sealed_payload : seal p t m s.info ≡ ok d
    unfolding seal
    sealed_payload = ground (arith, nonce_of-ok s.info.session_id seq (omega arith), e)

    write_frame_done : write_frame s.link t d seq ≡ (ok tt, with_sent s.link (wire t d seq))
    write_frame_done =
        write_frame-wire s.link t d seq ready.delivers d-IsBytes (omega (arith, d_length))
          (omega arith)

    sends_wire : send_encrypted_locked p t m s ≡ (ok tt, sealed s (wire t d seq))
    unfolding send_encrypted_locked write
    sends_wire = ground (arith, sealed_payload, write_frame_done)

    decrypted :
        (info : SessionInfo)
        → info.rx_key ≡ s.info.tx_key
        → info.session_id ≡ s.info.session_id
        → info.cipher_suite ≡ s.info.cipher_suite
        → decrypt p info.rx_key
            (nonce_bytes info.session_id seq)
            seq
            (packet_code t)
            2
            0xabcd
            (length d)
            d
            info.cipher_suite
          ≡ ok m
    decrypted info k i c =
        rw (k, i, c)
          ((decrypt_iff p laws s.info.tx_key nonce seq (packet_code t) 2 0xabcd s.info.cipher_suite
              nonce-length d m).1
            e)

    opens_it :
        (info : SessionInfo)
        → info.rx_key ≡ s.info.tx_key
        → info.session_id ≡ s.info.session_id
        → info.cipher_suite ≡ s.info.cipher_suite
        → open_frame p info (frame_of t d seq) ≡ ok m
    unfolding open_frame
    opens_it info k i c =
        ground (arith, nonce_of-ok info.session_id seq (omega arith), decrypted info k i c)

    carries : Carries p s t m (wire t d seq) (frame_of t d seq)
    carries = record {
      decodes =
          ap (λ bs. decode_frame bs true) (sym (append-nil (wire t d seq)))
          ∙ decode_frame-wire t d [] seq true d-IsBytes (omega (arith, d_length)) (omega arith);
      kind_is = refl;
      seq_is = refl;
      opens = opens_it;
    }

  -- One call puts one frame on the wire, and the peer that shares the key, the identifier and the
  -- suite reads the plaintext from it.
  pub packet_sent :
      (w : Bytes) × (f : UsmpFrame) × (send_encrypted_locked p t m s ≡ (ok tt, sealed s w))
      × Carries p s t m w f
  packet_sent =
      let (d, e) = ciphertext in (wire t d seq, frame_of t d seq, sends_wire d e, carries d e)

  -- The payload of the frame, and what the peer finds in the frame, over any transport.
  pub packet_sealed :
      (d : Bytes) × (seal p t m s.info ≡ ok d)
      × IsBytes d
      × (length d ≡ 12 + length m + 16)
      × Carries p s t m (wire t d s.info.tx_seq) (frame_of t d s.info.tx_seq)
  packet_sealed =
      let (d, e) = ciphertext in (d, sealed_payload d e, d-IsBytes d e, d_length d e, carries d e)
