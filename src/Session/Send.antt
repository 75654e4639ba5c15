-- ===== src/Session/Send.antt =====
-- The sending side: `send`, `ping`, `_send_pong`, `rekey`, `bye` and `_send_encrypted_locked`. The
-- lock makes each of these one step for the others that take it.
use usmp_python.Prelude.{
  ℕ, zero, suc, ◌+◌, ◌*◌, min, Bool, true, false, not, ◌&&◌, ◌||◌, [], ◌∷◌, ◌++◌, ltb, leb,
  if◌then◌else◌, length, take, drop,
}
use usmp_python.Errors.{
  Result, ok, err, sequence_error, payload_error, exception, is_sequence_error, is_os_error,
}
use usmp_python.Types.{
  Bytes, PacketType, packet_code, SessionInfo, usmp_magic, usmp_version, usmp_max_data_len,
  usmp_max_frames,
}
use usmp_python.Bytes.{pack_i}
use usmp_python.Crypto.{Primitives, encrypt, derive_rekey_keys}
use usmp_python.Transport.{write_frame, set_session_keys, close}
use usmp_python.Session.State.{Session, M, pure, raise, lift, gets, modify, ◌>>=◌, ◌>>◌}

-- `0xFFFFFFFF`.
abbrev pub max_seq : ℕ
max_seq = 4294967295

-- `ptype != PacketType.BYE`.
abbrev pub is_bye : PacketType → Bool
is_bye PacketType.bye = true
is_bye _ = false

-- `struct.pack("<I", seq) + session_id[:8]`, which is read at the number taken above.
unfoldable pub nonce_of : Bytes → ℕ → Result Bytes
nonce_of session_id seq = elim (pack_i seq) [ err e ↦ err e | ok s ↦ ok (s ++ take 8 session_id) ]

abbrev pub set_info : (SessionInfo → SessionInfo) → M (Unit {0})
set_info f = modify λ s. record s { info = f s.info }

-- `self._transport.write_frame(...)`.
unfoldable pub write : PacketType → Bytes → ℕ → M (Unit {0})
write ptype payload seq s =
    let (r, link) = write_frame s.link ptype payload seq in (r, record s { link = link })

-- New keys, counters from 0 and an empty window, and the same keys for the transport.
abbrev pub install_keys : Bytes → Bytes → M (Unit {0})
install_keys tx rx = modify λ s. record s {
  info = record s.info { tx_key = tx; rx_key = rx; tx_seq = 0; rx_seq = 0; rx_window_bitmap = 0 };
  link = set_session_keys s.link tx rx;
}

module _ (p : Primitives) where
  unfoldable pub seal : PacketType → Bytes → SessionInfo → Result Bytes
  seal ptype plaintext info = elim (nonce_of info.session_id info.tx_seq) [
    | err e ↦ err e
    | ok nonce ↦
        encrypt p info.tx_key nonce info.tx_seq (packet_code ptype) usmp_version usmp_magic
          plaintext info.cipher_suite
  ]

  unfoldable pub send_encrypted_locked : PacketType → Bytes → M (Unit {0})
  send_encrypted_locked ptype plaintext = do
    info ← gets (λ s. s.info)
    let seq = info.tx_seq
    if leb max_seq seq && not (is_bye ptype) then raise sequence_error else pure tt
    ciphertext ← lift (seal ptype plaintext info)
    modify (λ s. record s { seals = (info.tx_key, seq) ∷ s.seals })
    set_info (λ i. record i { tx_seq = min (seq + 1) max_seq })
    write ptype ciphertext seq

  -- The loop of `send` on what is left of the data, at most as often as the fuel says.
  unfoldable pub send_loop : ℕ → Bytes → M (Unit {0})
  send_loop zero rest = raise exception
  send_loop (suc fuel) rest =
      let chunk = take usmp_max_data_len rest in
      let left = drop usmp_max_data_len rest in
      let is_frag = ltb 0 (length left) in
      let more = send_loop fuel left in
      do
        send_encrypted_locked (if is_frag then PacketType.data_frag else PacketType.data_packet)
            chunk
        if is_frag then more else pure tt

  unfoldable pub send : Bytes → M (Unit {0})
  unfolding send_loop
  send bs =
      if ltb (usmp_max_data_len * usmp_max_frames) (length bs)
      then raise payload_error
      else send_loop (suc usmp_max_frames) bs

  unfoldable pub ping : M (Unit {0})
  ping = send_encrypted_locked PacketType.ping []

  unfoldable pub send_pong : M (Unit {0})
  send_pong = send_encrypted_locked PacketType.pong []

  -- `rekey`, for the salt that `os.urandom` returned.
  unfoldable pub rekey : Bytes → M (Unit {0})
  rekey salt = do
    send_encrypted_locked PacketType.rekey salt
    info ← gets (λ s. s.info)
    keys ← lift (derive_rekey_keys p true info.tx_key info.rx_key info.session_id salt)
    install_keys keys.0 keys.1

  -- `try`, `except (SequenceError, OSError)` and `finally` of `bye`.
  abbrev pub finish_bye : Result (Unit {0}) × Session → Result (Unit {0}) × Session
  finish_bye (r, s) = (
    elim r [ ok _ ↦ ok tt | err e ↦ if is_sequence_error e || is_os_error e then ok tt else err e ],
    record s { link = close s.link },
  )

  unfoldable pub bye : M (Unit {0})
  bye s =
      if s.closed
      then (ok tt, s)
      else finish_bye (send_encrypted_locked PacketType.bye [] (record s { closed = true }))
