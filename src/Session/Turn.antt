-- ===== src/Session/Turn.antt =====
-- One turn of the loops of `send` and `recv` over a reliable transport, on a fragment and on the
-- last packet of a message.
use usmp_python.Prelude.{
  ℕ, suc, ◌+◌, ◌*◌, ◌≤◌, ◌<◌, ◌≡◌, ap, true, some, ◌++◌, arith, length, take, drop, length-drop,
  lt→ltb, le→ltb, zero, ltb, if◌then◌else◌,
}
use mathlib.Core.Path.{fun_ext}
use usmp_python.Errors.{Result, ok}
use usmp_python.Types.{Bytes, PacketType, UsmpFrame}
use usmp_python.Crypto.{Primitives}
use usmp_python.Session.State.{Session, M, pure, ◌>>=◌}
use usmp_python.Session.Send.{max_seq, send_encrypted_locked, send_loop}
use usmp_python.Session.Recv.{
  Arrival, Reassembly, go_on, give, open_frame, recv_turn, authenticate, count_frame, take_fragment,
  add_fragment,
}

-- The receiver after a packet has been counted.
abbrev pub counted : Session → ℕ → Session
counted r now = record r { info = record r.info { rx_seq = r.info.rx_seq + 1 }; last_recv = now }

module _ (p : Primitives) where
  pub send_last :
      (fuel : ℕ) (rest : Bytes) (s t : Session)
      → length rest ≤ 452
      → send_encrypted_locked p PacketType.data_packet (take 452 rest) s ≡ (ok tt, t)
      → send_loop p (suc fuel) rest s ≡ (ok tt, t)
  unfolding send_loop
  send_last fuel rest s t h e = ground (arith, length-drop 452 rest)

  pub send_more :
      (fuel : ℕ) (rest : Bytes) (s t : Session)
      → 452 < length rest
      → send_encrypted_locked p PacketType.data_frag (take 452 rest) s ≡ (ok tt, t)
      → send_loop p (suc fuel) rest s ≡ send_loop p fuel (drop 452 rest) t
  unfolding send_loop
  send_more fuel rest s t h e =
      rw (lt→ltb 0 (length (drop 452 rest)) (omega (arith, length-drop 452 rest))) (
        ap
          (λ (x : Result (Unit {0}) × Session).
            ◌>>=◌ (λ _. x) (λ _. send_loop p fuel (drop 452 rest)) s)
          e)

  -- Once the fuel is enough for what is left, more of it changes nothing.
  pub send_loop-fuel :
      (k f g : ℕ) (rest : Bytes) (s : Session)
      → length rest ≤ 452 * suc k
      → k ≤ f
      → k ≤ g
      → send_loop p (suc f) rest s ≡ send_loop p (suc g) rest s
  unfolding send_loop
  send_loop-fuel zero f g rest s h hf hg =
      rw (le→ltb (length (drop 452 rest)) 0 (omega (arith, length-drop 452 rest)))
  send_loop-fuel (suc k) zero g rest s h hf hg = absurd (omega arith)
  send_loop-fuel (suc k) (suc f) zero rest s h hf hg = absurd (omega arith)
  send_loop-fuel (suc k) (suc f) (suc g) rest s h hf hg =
      ap
        (λ (more : M (Unit {0})).
          (send_encrypted_locked p
                (if ltb 0 (length (drop 452 rest))
                  then PacketType.data_frag
                  else PacketType.data_packet)
                (take 452 rest)
              >>= λ _. if ltb 0 (length (drop 452 rest)) then more else pure tt)
            s)
        (fun_ext λ t.
          send_loop-fuel k f g (drop 452 rest) t (omega (arith, length-drop 452 rest)) (omega arith)
            (omega arith))

  module _ (a : Arrival) (f : UsmpFrame) (m : Bytes) (st : Reassembly) (r : Session)
      (arrived : a.frame ≡ ok f) (reliable : r.link.is_reliable ≡ true)
      (in_order : f.seq ≡ r.info.rx_seq) (room : f.seq < max_seq)
      (opened : open_frame p r.info f ≡ ok m)
      (consecutive : 0 < st.frame_count → f.seq ≡ st.expected_frag_seq) where
    authenticated : authenticate p a r ≡ (ok (some (f, m)), record r { last_recv = a.read_at })
    unfolding authenticate
    authenticated = ground (arith, opened)

    counts : count_frame f (record r { last_recv = a.read_at }) ≡ (ok tt, counted r a.read_at)
    unfolding count_frame
    counts = ground arith

    pub recv_last :
        f.kind ≡ PacketType.data_packet
        → recv_turn p a st r ≡ (ok (give (st.assembled ++ m)), counted r a.read_at)
    unfolding recv_turn take_fragment
    recv_last k = ground (arith, authenticated, counts)

    pub recv_more :
        f.kind ≡ PacketType.data_frag
        → st.frame_count + 1 < 4
        → recv_turn p a st r ≡ (ok (go_on (add_fragment st f.seq m)), counted r a.read_at)
    unfolding recv_turn take_fragment
    recv_more k few = ground (arith, authenticated, counts)
