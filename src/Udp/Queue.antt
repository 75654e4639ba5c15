-- ===== src/Udp/Queue.antt =====
-- The read buffer is a queue of datagrams, each of them one frame: what `feed_packet` does to the
-- queue, and what `read_frame` takes from it.
use usmp_python.Prelude.{
  ℕ, suc, ◌≤◌, ◌≡◌, refl, Bool, true, some, List, [], ◌∷◌, ◌++◌, ◌⊎◌, inl, inr, arith, length, ap,
  ◌∙◌, sym, All, All-append, length-append, take-append, drop-append, le→ltb, append_assoc,
  append-nil, lt→ltb, zero,
}
use usmp_python.Errors.{ok}
use usmp_python.Types.{Bytes}
use usmp_python.Crypto.{Primitives}
use usmp_python.Frame.{decode_frame, header_size}
use usmp_python.Frame.Shape.{by_header}
use usmp_python.Udp.Stream.{
  Stream, holds_frame, byte_at, word_at, build_utack, feed_packet, readexactly,
}
use usmp_python.Udp.Read.{read_frame, read_body, read_sized, read_payload, decode_read}
use usmp_python.Udp.Buffer.{feed_packet-read_buffer}

abbrev pub concat : List Bytes → Bytes
concat [] = []
concat (d ∷ ds) = d ++ concat ds

-- The stream holds the datagrams `q`, each of them exactly one frame.
pub record Holds (q : List Bytes) (s : Stream) : Type 0 where
  pub frames : All (λ d. holds_frame d ≡ true) q
  pub buffered : s.read_buffer ≡ concat q

concat-append : (q : List Bytes) (d : Bytes) → concat (q ++ (d ∷ [])) ≡ concat q ++ d
concat-append [] d = append-nil d
concat-append (c ∷ q) d = ap (λ t. c ++ t) (concat-append q d) ∙ sym (append_assoc c (concat q) d)

-- Every datagram that arrives leaves the queue as it is, or joins it at the end, whole, and then
-- the stream has sent one datagram more, the acknowledgement of its type and sequence number.
pub feed_packet-Holds :
    (p : Primitives) (bs : Bytes) (s : Stream) (q : List Bytes)
    → Holds q s
    → Holds q (feed_packet p bs s)
      ⊎ (Holds (q ++ (bs ∷ [])) (feed_packet p bs s)
          × ((feed_packet p bs s).sent
              ≡ s.sent ++ (build_utack p (byte_at bs 3) (word_at bs 4) s ∷ [])))
feed_packet-Holds p bs s q h = elim (feed_packet-read_buffer p bs s) [
  | inl same ↦ inl (record { frames = h.frames; buffered = same ∙ h.buffered })
  | inr b ↦ inr (
    record {
      frames = All-append (λ d. holds_frame d ≡ true) q (bs ∷ []) h.frames (b.frame, tt);
      buffered = b.grown ∙ ap (λ t. t ++ bs) h.buffered ∙ sym (concat-append q bs);
    },
    b.acknowledged,
  )
]

-- Bytes that the buffer has do not have to be waited for.
readexactly-front :
    (n : ℕ) (front rest : Bytes) (s : Stream)
    → length front ≡ n
    → s.read_buffer ≡ front ++ rest
    → readexactly n s ≡ some (ok front, record s { read_buffer = rest })
unfolding readexactly
readexactly-front n front rest s hn e = simp (
  e,
  le→ltb n (length (front ++ rest)) (omega (arith, length-append front rest)),
  take-append n front rest hn,
  drop-append n front rest hn,
)

read_payload-front :
    (n : ℕ) (payload rest : Bytes) (s : Stream)
    → length payload ≡ n
    → s.read_buffer ≡ payload ++ rest
    → read_payload n s ≡ some (ok payload, record s { read_buffer = rest })
read_payload-front zero [] rest s hn e = simp (sym e)
read_payload-front zero (x ∷ xs) rest s hn e = absurd (omega arith)
read_payload-front (suc n) payload rest s hn e =
    rw (lt→ltb 0 (suc n) (omega arith)) (readexactly-front (suc n) payload rest s hn e)

module _ (b0 b1 b2 b3 b4 b5 b6 b7 b8 b9 b10 b11 : ℕ) (payload : Bytes) where
  abbrev front : Bytes
  front = b0 ∷ b1 ∷ b2 ∷ b3 ∷ b4 ∷ b5 ∷ b6 ∷ b7 ∷ b8 ∷ b9 ∷ b10 ∷ b11 ∷ []

  header_size-front :
      holds_frame (front ++ payload) ≡ true → header_size front ≡ ok (length payload)
  header_size-front h = ground arith

  read_frame-front :
      (v : Bool) (rest : Bytes) (s : Stream)
      → holds_frame (front ++ payload) ≡ true
      → s.read_buffer ≡ (front ++ payload) ++ rest
      → read_frame v s ≡ some (decode_frame (front ++ payload) v, record s { read_buffer = rest })
  unfolding read_frame
  read_frame-front v rest s h e =
      ap (read_body v)
        (readexactly-front 12 front (payload ++ rest) s refl (e ∙ append_assoc front payload rest))
      ∙ ap (read_sized v front (record s { read_buffer = payload ++ rest })) (header_size-front h)
      ∙ ap (decode_read v front) (read_payload-front (length payload) payload rest _ refl refl)

frame_read :
    (v : Bool) (rest : Bytes) (s : Stream) (d : Bytes)
    → 12 ≤ length d
    → holds_frame d ≡ true
    → s.read_buffer ≡ d ++ rest
    → read_frame v s ≡ some (decode_frame d v, record s { read_buffer = rest })
frame_read v rest s =
    by_header
      (λ d.
        holds_frame d ≡ true
        → s.read_buffer ≡ d ++ rest
        → read_frame v s ≡ some (decode_frame d v, record s { read_buffer = rest }))
      λ b0 b1 b2 b3 b4 b5 b6 b7 b8 b9 b10 b11 payload.
        read_frame-front b0 b1 b2 b3 b4 b5 b6 b7 b8 b9 b10 b11 payload v rest s

-- `read_frame` takes exactly the oldest datagram off the queue and returns what `decode_frame` makes
-- of it, the frame or the error; the later datagrams stay, so one that is refused costs no other.
pub read_frame-Holds :
    (v : Bool) (d : Bytes) (q : List Bytes) (s : Stream)
    → Holds (d ∷ q) s
    → (s' : Stream) × (read_frame v s ≡ some (decode_frame d v, s')) × Holds q s'
read_frame-Holds v d q s h = (
  record s { read_buffer = concat q },
  frame_read v (concat q) s d (ground (arith, h.frames.0)) h.frames.0 h.buffered,
  record { frames = h.frames.1; buffered = refl },
)
