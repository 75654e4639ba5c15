-- ===== src/Frame/Stream.antt =====
-- `read_frame` over a stream: it takes exactly one frame off the front.
use usmp_python.Prelude.{
  ℕ, suc, ◌+◌, ◌*◌, ◌≤◌, ◌<◌, ◌≡◌, refl, Bool, true, not, [], ◌∷◌, ◌++◌, arith, length, ap, ◌∙◌,
  sym, take, drop, le→leb, lt→leb, le→ltb, lt→ltb, ltb, leb, ◌==◌, Bool-cases, inl, inr, ◌⊎◌,
  take-append, drop-append, All-left, subst, ltb→lt, leb→le, zero, append-nil, length-append,
  length-take, take-append-drop,
}
use usmp_python.Errors.{
  Result, ok, err, ◌>>◌, raise_if, magic_error, payload_error, incomplete_read_error,
  is_frame_error,
}
use usmp_python.Types.{Bytes, PacketType, UsmpFrame}
use usmp_python.Bytes.{IsBytes}
use usmp_python.Bytes.Laws.{le16_value}
use usmp_python.Frame.{read_frame, read_payload, decode_read, decode_frame}
use usmp_python.Frame.Shape.{by_header, decode_frame-fields}
use usmp_python.Frame.Decode.{accepted}
use usmp_python.Frame.RoundTrip.{wire, frame_of, decode_frame-wire}
use usmp_python.Frame.Refusal.{decode_frame_fails}

module _ (b0 b1 b2 b3 b4 b5 b6 b7 b8 b9 b10 b11 : ℕ) (rest : Bytes) (v : Bool) where
  abbrev twelve : Bytes → Bytes
  twelve xs = b0 ∷ b1 ∷ b2 ∷ b3 ∷ b4 ∷ b5 ∷ b6 ∷ b7 ∷ b8 ∷ b9 ∷ b10 ∷ b11 ∷ xs

  -- `read_frame` on a stream that still holds a header.
  read_frame-header :
      read_frame v (twelve rest)
      ≡ elim (do
        raise_if (not (b0 + 256 * b1 == 0xabcd)) magic_error
        raise_if (ltb 480 (b8 + 256 * b9)) payload_error
        ok (b8 + 256 * b9)) [
          | err e ↦ (err e, rest)
          | ok size ↦ decode_read v (twelve []) (read_payload size rest)
        ]
  unfolding read_frame
  read_frame-header = rw (le→leb 12 (length (twelve rest)) (omega arith))

read_payload-append :
    (payload rest : Bytes) → read_payload (length payload) (payload ++ rest) ≡ (ok payload, rest)
read_payload-append [] rest = refl
read_payload-append (x ∷ xs) rest = rw (
  lt→ltb 0 (length (x ∷ xs)) (omega arith),
  le→leb (length (x ∷ xs)) (length (x ∷ xs ++ rest)) (omega (arith, length-append xs rest)),
  take-append (length xs) xs rest refl,
  drop-append (length xs) xs rest refl,
)

-- Whatever follows a frame in the stream, `read_frame` returns that frame and leaves the rest.
pub read_frame-wire :
    (t : PacketType) (payload rest : Bytes) (seq : ℕ) (v : Bool)
    → IsBytes payload
    → length payload ≤ 480
    → seq < 4294967296
    → read_frame v (wire t payload seq ++ rest) ≡ (ok (frame_of t payload seq), rest)
read_frame-wire t payload rest seq v hb hp hs =
    read_frame-header _ _ _ _ _ _ _ _ _ _ _ _ (payload ++ rest) v
    ∙ rw
        (
          le16_value (length payload) (omega arith),
          le→ltb (length payload) 480 hp,
          read_payload-append payload rest,
        )
        (ap (λ r. (r, rest)) whole)
  where
    whole : decode_frame (wire t payload seq) v ≡ ok (frame_of t payload seq)
    whole =
        ap (λ bs. decode_frame bs v) (sym (append-nil (wire t payload seq)))
        ∙ decode_frame-wire t payload [] seq v hb hp hs

-- How a read of a payload ends.
read_payload-cases :
    (size : ℕ) (stream : Bytes)
    → ((p : Bytes) × (read_payload size stream ≡ (ok p, drop size stream))
        × (length p ≡ size)
        × (stream ≡ p ++ drop size stream))
      ⊎ (read_payload size stream ≡ (err incomplete_read_error, []))
read_payload-cases zero stream = inl ([], refl, refl, refl)
read_payload-cases (suc n) stream = elim (Bool-cases (leb (suc n) (length stream))) [
  | inl enough ↦ inl (
    take (suc n) stream,
    rw (lt→ltb 0 (suc n) (omega arith), enough),
    omega (arith, length-take (suc n) stream, leb→le _ _ enough),
    sym (take-append-drop (suc n) stream),
  )
  | inr few ↦ inr (rw (lt→ltb 0 (suc n) (omega arith), few))
]

-- What a read has done, by how it ended: it took exactly the bytes of a frame that decodes, or it
-- raised an error of the frame or of the end of the stream.
abbrev pub Reads : Bytes → Bool → Result UsmpFrame × Bytes → Type 0
Reads stream v (ok f, rest) =
    (bs : Bytes) × (stream ≡ bs ++ rest) × (decode_frame bs v ≡ ok f) × (length bs ≡ 12 + f.size)
Reads stream v (err e, rest) = (is_frame_error e ≡ true) ⊎ (e ≡ incomplete_read_error)

module _ (b0 b1 b2 b3 b4 b5 b6 b7 b8 b9 b10 b11 : ℕ) (rest : Bytes) (v : Bool) where
  abbrev header_with : Bytes → Bytes
  header_with xs = b0 ∷ b1 ∷ b2 ∷ b3 ∷ b4 ∷ b5 ∷ b6 ∷ b7 ∷ b8 ∷ b9 ∷ b10 ∷ b11 ∷ xs

  -- Once the payload is read, the frame is decoded.
  decoded_body :
      (p left : Bytes) (r : Result UsmpFrame)
      → decode_frame (header_with p) v ≡ r
      → IsBytes (header_with p)
      → length p ≡ b8 + 256 * b9
      → rest ≡ p ++ left
      → Reads (header_with rest) v (r, left)
  decoded_body p left (ok f) h hb hl e = (
    header_with p,
    ap header_with e,
    h,
    omega (
      arith,
      (accepted _ b2 b3 _ _ _ p v f
          (sym (decode_frame-fields b0 b1 b2 b3 b4 b5 b6 b7 b8 b9 b10 b11 p v) ∙ h)).of_size,
    ),
  )
  decoded_body p left (err x) h hb hl e = inl (decode_frame_fails (header_with p) v x hb h)

  payload_bytes :
      (p left : Bytes) → IsBytes (header_with rest) → rest ≡ p ++ left → IsBytes (header_with p)
  payload_bytes p left hb e =
      All-left (λ b. b < 256) (header_with p) left (subst (λ xs. IsBytes (header_with xs)) e hb)

  header-Reads :
      IsBytes (header_with rest) → Reads (header_with rest) v (read_frame v (header_with rest))
  header-Reads hb =
      rw (read_frame-header b0 b1 b2 b3 b4 b5 b6 b7 b8 b9 b10 b11 rest v)
        (elim (Bool-cases (b0 + 256 * b1 == 0xabcd)) [
          | inr wrong ↦ rw wrong (inl refl)
          | inl right ↦ elim (Bool-cases (ltb 480 (b8 + 256 * b9))) [
            | inl large ↦ rw (right, large) (inl refl)
            | inr fits ↦
                rw (right, fits)
                  (elim (read_payload-cases (b8 + 256 * b9) rest) [
                    | inl (p, e, hl, cut) ↦
                        rw e (decoded_body p _ _ refl (payload_bytes p _ hb cut) hl cut)
                    | inr e ↦ rw e (inr refl)
                  ])
          ]
        ])

short_read :
    (stream : Bytes) (v : Bool)
    → length stream < 12
    → read_frame v stream ≡ (err incomplete_read_error, [])
unfolding read_frame
short_read stream v h = rw (lt→leb (length stream) 12 h)

long-Reads :
    (v : Bool) (stream : Bytes)
    → 12 ≤ length stream
    → IsBytes stream
    → Reads stream v (read_frame v stream)
long-Reads v =
    by_header (λ stream. IsBytes stream → Reads stream v (read_frame v stream))
      λ b0 b1 b2 b3 b4 b5 b6 b7 b8 b9 b10 b11 rest.
        header-Reads b0 b1 b2 b3 b4 b5 b6 b7 b8 b9 b10 b11 rest v

-- On any stream of bytes `read_frame` either takes exactly the bytes of one frame, which
-- `decode_frame` accepts as the frame returned, or raises a `FrameError` or `IncompleteReadError`.
pub read_frame-Reads :
    (stream : Bytes) (v : Bool) → IsBytes stream → Reads stream v (read_frame v stream)
read_frame-Reads stream v hb = elim (Bool-cases (ltb (length stream) 12)) [
  | inl short ↦ rw (short_read stream v (ltb→lt _ _ short)) (inr refl)
  | inr long ↦ long-Reads v stream (ground arith) hb
]
