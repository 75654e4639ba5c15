-- ===== src/Transport/Carry.antt =====
-- Frames over TCP, from one `TCPTransport` to another.
use usmp_python.Prelude.{
  ℕ, zero, suc, ◌≤◌, ◌<◌, ◌≡◌, refl, Bool, List, [], ◌∷◌, ◌++◌, map, length, ap, ap₂, ◌∙◌, sym, All,
  append_assoc, append-nil,
}
use usmp_python.Errors.{Result, ok, err}
use usmp_python.Types.{Bytes, PacketType, UsmpFrame}
use usmp_python.Bytes.{IsBytes}
use usmp_python.Frame.{read_frame}
use usmp_python.Frame.RoundTrip.{wire, frame_of, encode_frame-wire}
use usmp_python.Frame.Stream.{read_frame-wire}
use usmp_python.Transport.Tcp.{
  TcpTransport, tcp_write, tcp_drain, tcp_drain_as, tcp_write_encoded, tcp_write_frame,
  tcp_read_frame,
}

-- The arguments of a call of `write_frame`.
pub record Item : Type 0 where
  pub kind : PacketType
  pub payload : Bytes
  pub seq : ℕ

pub record Fits (i : Item) : Type 0 where
  pub bytes : IsBytes i.payload
  pub short : length i.payload ≤ 480
  pub narrow : i.seq < 4294967296

abbrev pub wire_of : Item → Bytes
wire_of i = wire i.kind i.payload i.seq

-- Calls of `write_frame`, up to the first that raises, and calls of `read_frame`.
abbrev pub and_then :
    (TcpTransport → Result (Unit {0}) × TcpTransport)
    → Result (Unit {0}) × TcpTransport
    → Result (Unit {0}) × TcpTransport
and_then next (err e, t) = (err e, t)
and_then next (ok _, t) = next t

unfoldable pub write_frames : List Item → TcpTransport → Result (Unit {0}) × TcpTransport
write_frames [] t = (ok tt, t)
write_frames (i ∷ is) t = and_then (write_frames is) (tcp_write_frame i.kind i.payload i.seq t)

unfoldable pub read_frames : ℕ → Bool → TcpTransport → List (Result UsmpFrame) × TcpTransport
read_frames zero v t = ([], t)
read_frames (suc n) v t =
    let (r, t') = tcp_read_frame v t in let (later, t'') = read_frames n v t' in (r ∷ later, t'')

-- What goes over the connection: the writes one after another.
abbrev pub joined : List Bytes → Bytes
joined [] = []
joined (bs ∷ later) = bs ++ joined later

with_written : TcpTransport → List Bytes → TcpTransport
with_written t more = record t { written = t.written ++ more; drains = [] }

tcp_write_frame-wire :
    (i : Item) (t : TcpTransport)
    → Fits i
    → t.drains ≡ []
    → tcp_write_frame i.kind i.payload i.seq t ≡ (ok tt, with_written t (wire_of i ∷ []))
unfolding tcp_write_frame with_written tcp_write tcp_drain
tcp_write_frame-wire i t f quiet =
    ap (λ r. tcp_write_encoded r t)
      (encode_frame-wire i.kind i.payload i.seq f.bytes f.short f.narrow)
    ∙ ap (λ ds. tcp_drain_as ds (record t { written = t.written ++ (wire_of i ∷ []); drains = ds }))
        quiet

write_frames-wire :
    (is : List Item) (t : TcpTransport)
    → All Fits is
    → t.drains ≡ []
    → write_frames is t ≡ (ok tt, with_written t (map wire_of is))
unfolding write_frames with_written
write_frames-wire [] t f quiet =
    ap₂ (λ ws ds. (ok tt, record t { written = ws; drains = ds })) (sym (append-nil t.written))
      quiet
write_frames-wire (i ∷ is) t f quiet =
    ap (and_then (write_frames is)) (tcp_write_frame-wire i t f.0 quiet)
    ∙ write_frames-wire is (with_written t (wire_of i ∷ [])) f.1 refl
    ∙ ap (λ ws. (ok tt, record t { written = ws; drains = [] }))
        (append_assoc t.written (wire_of i ∷ []) (map wire_of is))

read_frames-wire :
    (is : List Item) (rest : Bytes) (v : Bool) (t : TcpTransport)
    → All Fits is
    → t.reader ≡ joined (map wire_of is) ++ rest
    → read_frames (length is) v t
      ≡ (map (λ i. ok (frame_of i.kind i.payload i.seq)) is, record t { reader = rest })
unfolding read_frames tcp_read_frame
read_frames-wire [] rest v t f e = ap (λ r. ([], record t { reader = r })) e
read_frames-wire (i ∷ is) rest v t f e =
    let one : read_frame v t.reader
        ≡ (ok (frame_of i.kind i.payload i.seq), joined (map wire_of is) ++ rest) =
      ap (read_frame v) (e ∙ append_assoc (wire_of i) (joined (map wire_of is)) rest)
      ∙ read_frame-wire i.kind i.payload (joined (map wire_of is) ++ rest) i.seq v f.0.bytes
          f.0.short f.0.narrow in
    rw one (
      rw
        (read_frames-wire is rest v (record t { reader = joined (map wire_of is) ++ rest }) f.1
          refl)
        refl)

-- Frames that fit are all written, if no `drain` raises; and a transport to which the bytes written
-- come in order, with anything behind them, reads exactly these frames in their order and leaves
-- what stands behind.
pub read_frames-write_frames :
    (is : List Item) (rest : Bytes) (v : Bool) (a b : TcpTransport)
    → All Fits is
    → a.written ≡ []
    → a.drains ≡ []
    → b.reader ≡ joined (write_frames is a).1.written ++ rest
    → ((write_frames is a).0 ≡ ok tt)
      × (read_frames (length is) v b
          ≡ (map (λ i. ok (frame_of i.kind i.payload i.seq)) is, record b { reader = rest }))
unfolding with_written
read_frames-write_frames is rest v a b f fresh quiet e =
    let sent = write_frames-wire is a f quiet in
    (
      ap (λ r. r.0) sent,
      read_frames-wire is rest v b f (
          e
          ∙ ap (λ r. joined r.1.written ++ rest) sent
          ∙ ap (λ ws. joined (ws ++ map wire_of is) ++ rest) fresh),
    )
