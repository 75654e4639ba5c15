-- ===== src/Session/Recv.antt =====
-- `USMPSession.recv`: one turn of its loop for each frame that the transport reads, until a
-- message is complete or an exception leaves the loop.
use usmp_python.Prelude.{
  ℕ, ◌+◌, Bool, true, false, not, ◌&&◌, ◌||◌, Option, none, some, List, [], ◌∷◌, ◌++◌, ltb, leb,
  ◌==◌, if◌then◌else◌, length,
}
use usmp_python.Errors.{
  Exn, Result, ok, err, sequence_error, payload_error, value_error, connection_closed_error,
  usmp_timeout_error, timeout_error, is_usmp_error, is_struct_error, is_frame_error,
  is_sequence_error, is_value_error,
}
use usmp_python.Types.{Bytes, PacketType, packet_code, UsmpFrame, SessionInfo, usmp_max_frames}
use usmp_python.Crypto.{Primitives, decrypt, derive_rekey_keys}
use usmp_python.Transport.{confirm_authenticated}
use usmp_python.Window.{is_replayed, slide_window}
use usmp_python.Session.State.{Session, M, pure, raise, lift, gets, ◌>>=◌, ◌>>◌}
use usmp_python.Session.Send.{max_seq, nonce_of, install_keys, send_pong}

-- What one call of `read_frame` came to, and the clock in milliseconds when the frame had been
-- verified and when a control frame was counted.
pub record Arrival : Type 0 where
  pub frame : Result UsmpFrame
  pub read_at : ℕ
  pub counted_at : ℕ

-- The local variables of the loop.
pub record Reassembly : Type 0 where
  pub assembled : Bytes
  pub frame_count : ℕ
  pub ctrl_count : ℕ
  pub ctrl_window_start : ℕ
  pub expected_frag_seq : ℕ

-- How a turn ends, if it does not raise: by `continue` or the end of the body, or by `return`.
pub data Turn : Type 0 where
  go_on : Reassembly → Turn
  give : Bytes → Turn

abbrev pub start_reassembly : ℕ → Reassembly
start_reassembly now = record {
  assembled = [];
  frame_count = 0;
  ctrl_count = 0;
  ctrl_window_start = now;
  expected_frag_seq = 0;
}

-- `except (USMPError, struct.error)` round the read and the decryption.
abbrev pub drop_or_raise : {A : Type 0} → Exn → M (Option A)
drop_or_raise e s =
    if (is_usmp_error e || is_struct_error e) && not s.link.is_reliable
    then (ok none, s)
    else (err e, s)

-- After decryption: overflow, then the window over UDP or strict order over TCP.
unfoldable pub count_frame : UsmpFrame → M (Unit {0})
count_frame f s =
    if leb max_seq f.seq
    then (err sequence_error, s)
    else if s.link.is_reliable
    then (if f.seq == s.info.rx_seq
        then (ok tt, record s { info = record s.info { rx_seq = s.info.rx_seq + 1 } })
        else (err sequence_error, s))
    else (
      ok tt,
      record s { info = slide_window s.info f.seq; link = confirm_authenticated s.link f.seq },
    )

-- A DATA or DATA_FRAG packet.
abbrev pub add_fragment : Reassembly → ℕ → Bytes → Reassembly
add_fragment st seq plaintext = record st {
  assembled = st.assembled ++ plaintext;
  frame_count = st.frame_count + 1;
  expected_frag_seq = if ltb 0 st.frame_count then st.expected_frag_seq + 1 else seq + 1;
}

unfoldable pub take_fragment : UsmpFrame → Bytes → Bool → Reassembly → Result Turn
take_fragment f plaintext is_last st =
    if ltb 0 st.frame_count && not (f.seq == st.expected_frag_seq)
    then err sequence_error
    else (let st' = add_fragment st f.seq plaintext in
        if is_last
        then ok (give st'.assembled)
        else if leb usmp_max_frames st'.frame_count
        then err payload_error
        else ok (go_on st'))

-- The count of control frames in the current second.
abbrev pub count_control : Reassembly → ℕ → Reassembly
count_control st now =
    if ltb (st.ctrl_window_start + 1000) now
    then record st { ctrl_window_start = now; ctrl_count = 1 }
    else record st { ctrl_count = st.ctrl_count + 1 }

abbrev pub limit_control : Reassembly → Result Turn
limit_control st = if ltb 8 st.ctrl_count then err connection_closed_error else ok (go_on st)

module _ (p : Primitives) where
  unfoldable pub open_frame : SessionInfo → UsmpFrame → Result Bytes
  open_frame info f = elim (nonce_of info.session_id f.seq) [
    | err e ↦ err e
    | ok nonce ↦
        decrypt p info.rx_key nonce f.seq (packet_code f.kind) f.version f.magic f.size f.payload
          info.cipher_suite
  ]

  -- The first `try`: `none` where the packet is dropped without a word.
  unfoldable pub authenticate : Arrival → M (Option (UsmpFrame × Bytes))
  authenticate a s = elim a.frame [
    | err e ↦ drop_or_raise e s
    | ok f ↦
        if not s.link.is_reliable && is_replayed s.info f.seq
        then (ok none, s)
        else elim (open_frame s.info f) [
          | err e ↦ drop_or_raise e s
          | ok plaintext ↦ (ok (some (f, plaintext)), record s { last_recv = a.read_at })
        ]
  ]

  abbrev pub answer : PacketType → M (Unit {0})
  answer PacketType.ping = send_pong p
  answer _ = pure tt

  unfoldable pub take_control : PacketType → ℕ → Reassembly → M Turn
  take_control kind now st = do
    if ltb 0 (length st.assembled) then raise sequence_error else pure tt
    answer kind
    lift (limit_control (count_control st now))

  unfoldable pub take_rekey : Bytes → Reassembly → M Turn
  take_rekey plaintext st = do
    if ltb 0 (length st.assembled) then raise sequence_error else pure tt
    if length plaintext == 32 then pure tt else raise payload_error
    info ← gets (λ s. s.info)
    keys ← lift (derive_rekey_keys p false info.tx_key info.rx_key info.session_id plaintext)
    install_keys keys.0 keys.1
    pure (go_on st)

  -- The body of the second `try`.
  abbrev pub dispatch : PacketType → UsmpFrame → Bytes → ℕ → Reassembly → M Turn
  dispatch PacketType.bye f plaintext now st = raise connection_closed_error
  dispatch PacketType.ping f plaintext now st = take_control PacketType.ping now st
  dispatch PacketType.pong f plaintext now st = take_control PacketType.pong now st
  dispatch PacketType.rekey f plaintext now st = take_rekey plaintext st
  dispatch PacketType.data_packet f plaintext now st = lift (take_fragment f plaintext true st)
  dispatch PacketType.data_frag f plaintext now st = lift (take_fragment f plaintext false st)
  dispatch _ f plaintext now st = raise value_error

  -- `except (FrameError, SequenceError, ValueError)`: over UDP the reassembly starts anew.
  abbrev pub recover : Reassembly → Result Turn × Session → Result Turn × Session
  recover st (ok turn, s) = (ok turn, s)
  recover st (err e, s) =
      if (is_frame_error e || is_sequence_error e || is_value_error e) && not s.link.is_reliable
      then (ok (go_on (record st { assembled = []; frame_count = 0; expected_frag_seq = 0 })), s)
      else (err e, s)

  abbrev pub handle_packet : UsmpFrame → Bytes → ℕ → Reassembly → M Turn
  handle_packet f plaintext now st = do
    count_frame f
    λ s. recover st (dispatch f.kind f plaintext now st s)

  unfoldable pub recv_turn : Arrival → Reassembly → M Turn
  recv_turn a st = do
    got ← authenticate a
    elim got [
      | none ↦ pure (go_on st)
      | some (f, plaintext) ↦ handle_packet f plaintext a.counted_at st
    ]

  -- `_recv_internal` on the frames that arrive: the message, or `none` while the loop still waits;
  -- the frames that are left; and the session.
  unfoldable pub recv_internal :
      List Arrival → Reassembly → Session → Result (Option Bytes) × List Arrival × Session
  recv_internal [] st s = (ok none, [], s)
  recv_internal (a ∷ later) st s =
      let (r, s') = recv_turn a st s in
      elim r [
        | err e ↦ (err e, later, s')
        | ok (give message) ↦ (ok (some message), later, s')
        | ok (go_on st') ↦ recv_internal later st' s'
      ]

  -- `wait_for`: a loop that still waits when the frames have been read is cancelled.
  abbrev time_out : Result (Option Bytes) → Result (Option Bytes)
  time_out (ok none) = err usmp_timeout_error
  time_out (ok (some message)) = ok (some message)
  time_out (err timeout_error) = err usmp_timeout_error
  time_out (err e) = err e

  abbrev effective_timeout : Option ℕ → Session → Option ℕ
  effective_timeout none s = s.recv_timeout
  effective_timeout (some t) s = some t

  unfoldable pub recv :
      Option ℕ → ℕ → List Arrival → Session → Result (Option Bytes) × List Arrival × Session
  recv timeout now arrivals s =
      let (r, rest, s') = recv_internal arrivals (start_reassembly now) s in
      elim (effective_timeout timeout s) [ none ↦ (r, rest, s') | some _ ↦ (time_out r, rest, s') ]
