-- ===== src/Udp/Resend.antt =====
-- `write_frame` over a network that loses datagrams: what the receiver has in the end, and what the
-- sender is told.
use usmp_python.Prelude.{
  ℕ, ◌+◌, ◌≤◌, ◌<◌, ◌≡◌, refl, false, some, List, ◌++◌, arith, length, ap, ◌∙◌, sym, replicate,
  le→leb, eq→==,
}
use usmp_python.Types.{Bytes, PacketType, packet_code}
use usmp_python.Bytes.{IsBytes}
use usmp_python.Bytes.Laws.{le32_value, le16_value}
use usmp_python.Crypto.{Primitives}
use usmp_python.Crypto.Laws.{IsSized}
use usmp_python.Frame.RoundTrip.{wire}
use usmp_python.Udp.Stream.{Stream, is_handshake_type, is_too_old, word_at}
use usmp_python.Udp.Send.{attempts, write_frame}
use usmp_python.Udp.Queue.{concat}
use usmp_python.Udp.Reply.{Paired}
use usmp_python.Udp.Drain.{begin, drain-attempts}
use usmp_python.Udp.Deliver.{written, write_frame-drain}
use usmp_python.Udp.Network.{
  Fate, is_answered, received, tries, meet, Hears, IsSessionFrame, Sends, outcome, HasRoom,
}
use usmp_python.Udp.Meet.{attempts-meet}

module _ (p : Primitives) (sized : IsSized p) (t : PacketType) (payload : Bytes) (seq : ℕ) where
  wire_seq : seq < 4294967296 → word_at (wire t payload seq) 4 ≡ seq
  wire_seq h = le32_value seq h

  pub wire-IsSessionFrame :
      length payload ≤ 480
      → seq < 4294967296
      → is_handshake_type (packet_code t) ≡ false
      → IsSessionFrame p (wire t payload seq)
  wire-IsSessionFrame hp hs session = record {
    plain = ground arith;
    frame = simp (
      le16_value (length payload) (omega arith),
      le→leb (length payload) 480 hp,
      le→leb 12 (length (wire t payload seq)) (omega arith),
      eq→== (length (wire t payload seq)) (12 + length payload) (omega arith),
    );
    session = session;
    narrow = omega arith;
  }

  -- `write_frame` sends a frame of a session whose number is recent enough for a receiver with room,
  -- while each of at most five attempts is lost, or arrives and its acknowledgement is lost, or is
  -- answered in time. It returns exactly if an attempt was answered, and raises `OSError`
  -- otherwise; the receiver has one copy of the frame for each attempt that reached it, also if
  -- `OSError` was raised; and the sender sent one copy for each attempt up to the first answer.
  pub write_frame-meet :
      (fates : List Fate) (s r : Stream)
      → length fates ≤ 5
      → IsBytes payload
      → length payload ≤ 480
      → seq < 4294967296
      → is_handshake_type (packet_code t) ≡ false
      → s.closed ≡ false
      → r.closed ≡ false
      → is_too_old seq r.last_rx_seq ≡ false
      → Paired (packet_code t) s r
      → HasRoom (wire t payload seq) fates r
      → let d = wire t payload seq in
        let arrived = meet p d fates r in
        let (result, s') = write_frame p t payload seq arrived.0 s in
        (result ≡ outcome (is_answered fates))
        × (arrived.1.read_buffer ≡ r.read_buffer ++ concat (replicate (received fates) d))
        × (s'.sent ≡ s.sent ++ replicate (tries 5 fates) d)
  write_frame-meet fates s r few hb hp hs session open_sender open_receiver recent k room =
      let waits = (meet p d fates r).0 in
      let e : write_frame p t payload seq waits s
          ≡ attempts p 5 d waits (begin p (written p sized t payload seq s)) =
        write_frame-drain p sized t payload seq s waits hb hp hs open_sender
        ∙ drain-attempts p waits (written p sized t payload seq s) d seq refl refl in
      let (done, kept, sent) =
        attempts-meet p d sized fates 5 (begin p (written p sized t payload seq s)) r few
          (wire-IsSessionFrame hp hs session) hears sends room in
      (ap (λ x. x.0) e ∙ done, kept, ap (λ x. x.1.sent) e ∙ sent)
    where
      d : Bytes
      d = wire t payload seq

      hears : Hears p d (begin p (written p sized t payload seq s)) r
      hears = record {
        opened = open_receiver;
        recent = ap (λ n. is_too_old n r.last_rx_seq) (wire_seq hs) ∙ recent;
        paired = record { key = k.key; checks = k.checks; signs = k.signs };
      }

      sends : Sends p d (begin p (written p sized t payload seq s))
      sends = record {
        open_sender = open_sender;
        of_type = refl;
        of_seq = ap some (sym (wire_seq hs));
        unacked = refl;
      }
