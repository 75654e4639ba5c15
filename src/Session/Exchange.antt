-- ===== src/Session/Exchange.antt =====
-- The loops of `send` and `recv` over a reliable transport.
use usmp_python.Prelude.{
  ℕ, zero, suc, ◌+◌, ◌*◌, ◌≤◌, ◌<◌, ◌≡◌, refl, sym, ap, ◌∙◌, subst, true, some, List, [], ◌∷◌, ◌++◌,
  arith, length, take, drop, length-take, length-drop, take-append-drop, take-all, append_assoc,
  All-take, All-drop, Bool-cases, inl, inr, ltb, ltb→lt,
}
use usmp_python.Errors.{Result, ok}
use usmp_python.Types.{Bytes, PacketType, UsmpFrame}
use usmp_python.Bytes.{IsBytes}
use usmp_python.Frame.{decode_frame}
use usmp_python.Crypto.{Primitives}
use usmp_python.Crypto.Laws.{IsAead}
use usmp_python.Session.State.{Session}
use usmp_python.Session.Send.{max_seq, send_encrypted_locked, send_loop}
use usmp_python.Session.Recv.{
  Arrival, Reassembly, go_on, give, add_fragment, recv_internal, recv_turn,
}
use usmp_python.Session.Packet.{IsReady, sealed, Carries, packet_sent}
use usmp_python.Session.Turn.{counted, send_last, send_more, recv_last, recv_more}

-- Each byte string is read by the transport as one frame, at any time.
abbrev pub Read : List Bytes → List Arrival → Type 0
Read [] [] = Unit
Read [] (a ∷ rest) = ⊥
Read (w ∷ ws) [] = ⊥
Read (w ∷ ws) (a ∷ rest) = (a.frame ≡ decode_frame w true) × Read ws rest

-- The receiver expects what the sender sends next.
pub record Peers (s r : Session) : Type 0 where
  pub reliable : r.link.is_reliable ≡ true
  pub same_key : r.info.rx_key ≡ s.info.tx_key
  pub same_id : r.info.session_id ≡ s.info.session_id
  pub same_suite : r.info.cipher_suite ≡ s.info.cipher_suite
  pub same_seq : r.info.rx_seq ≡ s.info.tx_seq

sealed-IsReady : (s : Session) (w : Bytes) → IsReady s → IsReady (sealed s w)
sealed-IsReady s w h = record {
  key_length = h.key_length;
  id_length = h.id_length;
  id_bytes = h.id_bytes;
  delivers = refl;
}

counted-Peers :
    (s r : Session) (w : Bytes) (now : ℕ) → Peers s r → Peers (sealed s w) (counted r now)
counted-Peers s r w now h = record {
  reliable = h.reliable;
  same_key = h.same_key;
  same_id = h.same_id;
  same_suite = h.same_suite;
  same_seq = ap (λ n. n + 1) h.same_seq;
}

module _ (p : Primitives) where
  recv_gives :
      (a : Arrival) (later : List Arrival) (st : Reassembly) (r t : Session) (m : Bytes)
      → recv_turn p a st r ≡ (ok (give m), t)
      → recv_internal p (a ∷ later) st r ≡ (ok (some m), later, t)
  unfolding recv_internal
  recv_gives a later st r t m e = ground (arith, e)

  recv_goes_on :
      (a : Arrival) (later : List Arrival) (st st' : Reassembly) (r t : Session)
      → recv_turn p a st r ≡ (ok (go_on st'), t)
      → recv_internal p (a ∷ later) st r ≡ recv_internal p later st' t
  unfolding recv_internal
  recv_goes_on a later st st' r t e = ground (arith, e)

  -- A reassembly that can take this many more packets, and expects the sender's next one.
  abbrev pub Takes : Reassembly → ℕ → Session → Type 0
  Takes st n s =
      (st.frame_count + n ≤ 4) × (0 < st.frame_count → s.info.tx_seq ≡ st.expected_frag_seq)

  -- The loop of `recv` takes just these frames and returns what it had assembled and the rest.
  abbrev pub Receives : List Bytes → Bytes → ℕ → Session → Session → Type 0
  Receives ws rest n s s' =
      (r : Session) (st : Reassembly) (arrivals later : List Arrival)
      → Peers s r
      → Takes st n s
      → Read ws arrivals
      → (r' : Session) × (recv_internal p (arrivals ++ later) st r
          ≡ (ok (some (st.assembled ++ rest)), later, r'))
        × Peers s' r'

  -- What a run of the loop of `send` does: it succeeds, and the frames that it puts on the wire
  -- are received.
  abbrev pub Delivers : Result (Unit {0}) × Session → Bytes → ℕ → Session → Type 0
  Delivers (out, s') rest n s =
      (out ≡ ok tt)
      × IsReady s'
      × (ws : List Bytes) × (s'.link.sent ≡ s.link.sent ++ ws)
      × Receives ws rest n s s'

  finishes :
      (rest : Bytes) (n : ℕ) (s : Session) (w : Bytes) (f : UsmpFrame)
      → Carries p s PacketType.data_packet rest w f
      → s.info.tx_seq < max_seq
      → Receives (w ∷ []) rest n s (sealed s w)
  finishes rest n s w f c room r st [] later peers takes read = absurd read
  finishes rest n s w f c room r st (a ∷ b ∷ arrivals) later peers takes read = absurd read.1
  finishes rest n s w f c room r st (a ∷ []) later peers takes read = (
    counted r a.read_at,
    recv_gives a later st r (counted r a.read_at) (st.assembled ++ rest) (
        recv_last p a f rest st r (read.0 ∙ c.decodes) peers.reliable
          (c.seq_is ∙ sym peers.same_seq) (omega (arith, c.seq_is))
          (c.opens r.info peers.same_key peers.same_id peers.same_suite)
          (λ some_. c.seq_is ∙ takes.1 some_) c.kind_is),
    counted-Peers s r w a.read_at peers,
  )

  next_expected :
      (st : Reassembly) (s : Session) (f : UsmpFrame) (m : Bytes)
      → f.seq ≡ s.info.tx_seq
      → (0 < st.frame_count → s.info.tx_seq ≡ st.expected_frag_seq)
      → 0 < st.frame_count + 1
      → s.info.tx_seq + 1 ≡ (add_fragment st f.seq m).expected_frag_seq
  next_expected st s f m e follows some_ = ground arith

  goes_on :
      (m rest : Bytes) (n : ℕ) (s s' : Session) (w : Bytes) (ws : List Bytes) (f : UsmpFrame)
      → Carries p s PacketType.data_frag m w f
      → s.info.tx_seq < max_seq
      → 0 < n
      → Receives ws rest n (sealed s w) s'
      → Receives (w ∷ ws) (m ++ rest) (suc n) s s'
  goes_on m rest n s s' w ws f c room more next r st [] later peers takes read = absurd read
  goes_on m rest n s s' w ws f c room more next r st (a ∷ arrivals) later peers takes read =
      let (r', e, ps) =
        next (counted r a.read_at) (add_fragment st f.seq m) arrivals later
          (counted-Peers s r w a.read_at peers)
          (omega arith, next_expected st s f m c.seq_is takes.1) read.1 in
      (
        r',
        recv_goes_on a (arrivals ++ later) st (add_fragment st f.seq m) r (counted r a.read_at) (
              recv_more p a f m st r (read.0 ∙ c.decodes) peers.reliable
                (c.seq_is ∙ sym peers.same_seq) (omega (arith, c.seq_is))
                (c.opens r.info peers.same_key peers.same_id peers.same_suite)
                (λ some_. c.seq_is ∙ takes.1 some_) c.kind_is (omega arith))
            ∙ e
            ∙ ap (λ whole. (ok (some whole), later, r')) (append_assoc st.assembled m rest),
        ps,
      )

  -- One fragment more in front.
  extended :
      (rest : Bytes) (n : ℕ) (s : Session) (w : Bytes) (f : UsmpFrame)
      (x : Result (Unit {0}) × Session)
      → Carries p s PacketType.data_frag (take 452 rest) w f
      → s.info.tx_seq < max_seq
      → 0 < n
      → Delivers x (drop 452 rest) n (sealed s w)
      → Delivers x rest (suc n) s
  extended rest n s w f x c room more (done, ready, ws, sent, receives) = (
    done,
    ready,
    w ∷ ws,
    sent ∙ append_assoc s.link.sent (w ∷ []) ws,
    subst (λ m. Receives (w ∷ ws) m (suc n) s x.1) (take-append-drop 452 rest)
        (goes_on (take 452 rest) (drop 452 rest) n s x.1 w ws f c room more receives),
  )

  module _ (laws : IsAead p) where
    last_packet :
        (fuel n : ℕ) (rest : Bytes) (s : Session)
        → IsReady s
        → IsBytes rest
        → length rest ≤ 452
        → s.info.tx_seq < max_seq
        → Delivers (send_loop p (suc fuel) rest s) rest n s
    last_packet fuel n rest s ready bytes h room =
        let (w, f, e, c) = packet_sent p laws PacketType.data_packet rest s ready room h bytes in
        subst (λ x. Delivers x rest n s)
          (sym (
            send_last p fuel rest s (sealed s w) h (
              ap (λ m. send_encrypted_locked p PacketType.data_packet m s) (take-all 452 rest h)
              ∙ e)))
          (refl, sealed-IsReady s w ready, w ∷ [], refl, finishes rest n s w f c room)

    pub send_loop-Delivers :
        (k fuel : ℕ) (rest : Bytes) (s : Session)
        → IsReady s
        → IsBytes rest
        → length rest ≤ 452 * suc k
        → k ≤ fuel
        → s.info.tx_seq + suc k ≤ max_seq
        → Delivers (send_loop p (suc fuel) rest s) rest (suc k) s
    send_loop-Delivers zero fuel rest s ready bytes fits enough room =
        last_packet fuel 1 rest s ready bytes (omega arith) (omega arith)
    send_loop-Delivers (suc k) zero rest s ready bytes fits enough room = absurd (omega arith)
    send_loop-Delivers (suc k) (suc fuel) rest s ready bytes fits enough room =
        elim (Bool-cases (ltb 452 (length rest))) [
          | inr small ↦
              last_packet (suc fuel) (suc (suc k)) rest s ready bytes (ground arith) (omega arith)
          | inl large ↦
              let (w, f, e, c) =
                packet_sent p laws PacketType.data_frag (take 452 rest) s ready (omega arith)
                  (omega (arith, length-take 452 rest)) (All-take _ 452 rest bytes) in
              subst (λ x. Delivers x rest (suc (suc k)) s)
                (sym
                  (send_more p (suc fuel) rest s (sealed s w) (ltb→lt 452 (length rest) large) e))
                (extended rest (suc k) s w f (send_loop p (suc fuel) (drop 452 rest) (sealed s w)) c
                  (omega arith) (omega arith)
                  (send_loop-Delivers k fuel (drop 452 rest) (sealed s w) (sealed-IsReady s w ready)
                    (All-drop _ 452 rest bytes) (omega (arith, length-drop 452 rest)) (omega arith)
                    (omega arith)))
        ]
