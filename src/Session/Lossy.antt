-- ===== src/Session/Lossy.antt =====
-- One packet of a session over UDP, on a network that loses datagrams: from the payload that the
-- sender seals, through the retransmissions, to `recv` of the peer.
use usmp_python.Prelude.{
  ℕ, zero, suc, ◌+◌, ◌≤◌, ◌<◌, ◌≡◌, refl, sym, ap, ◌∙◌, true, false, some, none, List, [], ◌++◌,
  map, replicate, arith, length, length-replicate, All, append-nil,
}
use usmp_python.Errors.{Result, ok}
use usmp_python.Types.{Bytes, PacketType, UsmpFrame}
use usmp_python.Bytes.{IsBytes}
use usmp_python.Crypto.{Primitives}
use usmp_python.Crypto.Laws.{IsSized, IsAead}
use usmp_python.Frame.{decode_frame}
use usmp_python.Frame.RoundTrip.{wire, frame_of}
use usmp_python.Udp.Stream.{Stream, holds_frame, is_too_old}
use usmp_python.Udp.Send.{write_frame}
use usmp_python.Udp.Queue.{concat}
use usmp_python.Udp.Reply.{Paired}
use usmp_python.Udp.Network.{Fate, is_answered, received, meet, outcome, HasRoom}
use usmp_python.Udp.Copies.{
  reads, reads-Holds, map-replicate, All-replicate, received-le, length-copies,
}
use usmp_python.Udp.Resend.{wire-IsSessionFrame, write_frame-meet}
use usmp_python.Window.Seen.{seen, Shows}
use usmp_python.Session.State.{Session}
use usmp_python.Session.Send.{max_seq, seal}
use usmp_python.Session.Recv.{Arrival, Reassembly, start_reassembly, recv_internal}
use usmp_python.Session.Packet.{IsReady, packet_sealed}
use usmp_python.Session.Once.{IsNew, accepted, recv_internal-copies}

-- The peer shares the keys, and the number is new and recent for its window.
pub record Expects (s r : Session) (ss : List ℕ) : Type 0 where
  pub udp : r.link.is_reliable ≡ false
  pub same_key : r.info.rx_key ≡ s.info.tx_key
  pub same_id : r.info.session_id ≡ s.info.session_id
  pub same_suite : r.info.cipher_suite ≡ s.info.cipher_suite
  pub window : Shows r.info ss
  pub unseen : seen s.info.tx_seq ss ≡ false
  pub recent : r.info.rx_seq < s.info.tx_seq + 64

-- The streams under the two sessions: open, with the keys of the acknowledgements, and nothing in
-- the buffer of the receiver.
pub record Joins (seq : ℕ) (a b : Stream) : Type 0 where
  pub open_sender : a.closed ≡ false
  pub open_receiver : b.closed ≡ false
  pub nothing_read : b.read_buffer ≡ []
  pub not_old : is_too_old seq b.last_rx_seq ≡ false
  pub paired : Paired 5 a b

-- What `read_frame` returned, as `recv` finds it.
abbrev pub arriving : ℕ → List (Result UsmpFrame) → List Arrival
arriving now = map (λ r. record { frame = r; read_at = now; counted_at = now })

arriving-replicate :
    (now n : ℕ) (f : UsmpFrame) → All (λ x. x.frame ≡ ok f) (arriving now (replicate n (ok f)))
arriving-replicate now zero f = tt
arriving-replicate now (suc n) f = (refl, arriving-replicate now n f)

-- The packet of `m`, sent by `s` over the stream `a`, arrives at `r` over the stream `b` once: the
-- sender is told whether an attempt was answered, the copies that came are read, and of these `recv`
-- returns the first and drops the others.
abbrev pub ArrivesOnce :
    Primitives → List Fate → Bytes → Session → Session → Stream → Stream → ℕ → Reassembly → Type 0
ArrivesOnce p fates m s r a b now st =
    (d : Bytes) × (seal p PacketType.data_packet m s.info ≡ ok d)
    × (let (waits, b') = meet p (wire PacketType.data_packet d s.info.tx_seq) fates b in
        ((write_frame p PacketType.data_packet d s.info.tx_seq waits a).0
          ≡ outcome (is_answered fates))
        × (b'' : Stream) × (frames : List (Result UsmpFrame)) × (reads (received fates) b'
            ≡ some (frames, b''))
        × (b''.read_buffer ≡ [])
        × (copies : List Arrival) × (r' : Session) × (recv_internal p (arriving now frames)
              (start_reassembly now) r
            ≡ (ok (some m), copies, r'))
        × (recv_internal p copies st r' ≡ (ok none, [], r')))

module _ (p : Primitives) (laws : IsAead p) (sized : IsSized p) where
  -- The frames that reach the stream of the receiver, and what the sender is told.
  carried :
      (fates : List Fate) (d : Bytes) (seq : ℕ) (f : UsmpFrame) (a b : Stream)
      → length fates ≤ 5
      → IsBytes d
      → length d ≤ 480
      → seq < 4294967296
      → decode_frame (wire PacketType.data_packet d seq) true ≡ ok f
      → Joins seq a b
      → let (waits, b') = meet p (wire PacketType.data_packet d seq) fates b in
        ((write_frame p PacketType.data_packet d seq waits a).0 ≡ outcome (is_answered fates))
        × (b'' : Stream) × (reads (received fates) b'
            ≡ some (replicate (received fates) (ok f), b''))
        × (b''.read_buffer ≡ [])
  carried fates d seq f a b few bytes short narrow decodes j =
      let (told, kept, _) =
        write_frame-meet p sized PacketType.data_packet d seq fates a b few bytes short narrow refl
          j.open_sender j.open_receiver j.not_old j.paired room in
      let (b'', done, empty) = reads-Holds copies (meet p w fates b).1 (record {
        frames = All-replicate _ (received fates) w framed;
        buffered = kept ∙ ap (λ t. t ++ concat copies) j.nothing_read;
      }) in
      (told, b'', as_frames b'' done, empty.buffered)
    where
      w : Bytes
      w = wire PacketType.data_packet d seq

      copies : List Bytes
      copies = replicate (received fates) w

      framed : holds_frame w ≡ true
      framed = (wire-IsSessionFrame p sized PacketType.data_packet d seq short narrow refl).frame

      room : HasRoom w fates b
      room = omega (
        arith,
        few,
        received-le fates,
        ap length j.nothing_read,
        length-copies w (received fates) (omega (arith, short)),
      )

      as_frames :
          (b'' : Stream)
          → reads (length copies) (meet p w fates b).1
            ≡ some (map (λ x. decode_frame x true) copies, b'')
          → reads (received fates) (meet p w fates b).1
            ≡ some (replicate (received fates) (ok f), b'')
      as_frames b'' done =
          ap (λ n. reads n (meet p w fates b).1) (sym (length-replicate (received fates) w))
          ∙ done
          ∙ ap (λ fs. some (fs, b''))
              (map-replicate (λ x. decode_frame x true) (received fates) w
                ∙ ap (replicate (received fates)) decodes)

  -- A packet of at most 452 bytes of a session over UDP arrives exactly once, under these conditions:
  -- the streams are open and have each other's keys of the acknowledgements, the buffer of the
  -- receiver is empty, and the number is less than 64 behind the highest one that the receiver's
  -- stream has confirmed, which new keys do not reset; the peer shares key, identifier and suite, its
  -- window has not seen the number, which is less than 64 behind the highest one there and below
  -- the maximum. While at most five attempts are lost, or arrive without an answer, or are answered,
  -- `write_frame` returns exactly if one is answered; and if at least one reaches the peer, `recv` of
  -- the peer returns exactly the plaintext, and the next call of `recv` drops the copies that are
  -- left.
  pub sent_once :
      (fates : List Fate) (k : ℕ) (m : Bytes) (s r : Session) (ss : List ℕ) (a b : Stream) (now : ℕ)
      (st : Reassembly)
      → length fates ≤ 5
      → received fates ≡ suc k
      → IsReady s
      → s.info.tx_seq < max_seq
      → length m ≤ 452
      → IsBytes m
      → Expects s r ss
      → Joins s.info.tx_seq a b
      → ArrivesOnce p fates m s r a b now st
  unfolding recv_internal
  sent_once fates k m s r ss a b now st few some_came ready room short bytes x j =
      let (d, sealed, d_bytes, d_length, c) =
        packet_sealed p laws PacketType.data_packet m s ready room short bytes in
      let f = frame_of PacketType.data_packet d s.info.tx_seq in
      let (told, b'', done, empty) =
        carried fates d s.info.tx_seq f a b few d_bytes (omega (arith, d_length, short))
          (omega (arith, room)) c.decodes j in
      let new : IsNew p f m ss r = record {
        udp = x.udp;
        window = x.window;
        unseen = x.unseen;
        recent = x.recent;
        room = room;
        opens = c.opens r.info x.same_key x.same_id x.same_suite;
      } in
      let copies = arriving now (replicate k (ok f)) in
      let (first, others) =
        recv_internal-copies p f m ss r new
          (record { frame = ok f; read_at = now; counted_at = now }) copies [] now st refl refl
          (arriving-replicate now k f) in
      (
        d,
        sealed,
        (
          told,
          b'',
          replicate (suc k) (ok f),
          done ∙ ap (λ n. some (replicate n (ok f), b'')) some_came,
          empty,
          copies,
          accepted p f m ss r new now,
          first,
          ap (λ xs. recv_internal p xs st (accepted p f m ss r new now)) (sym (append-nil copies))
              ∙ others,
        ),
      )
