-- ===== src/Frame/Refusal.antt =====
-- How `decode_frame` refuses: only by the classes below `FrameError`, and with `CRCError` where a
-- byte of the payload has changed on the way.
use usmp_python.Prelude.{
  ℕ, ◌+◌, ◌*◌, ◌≤◌, ◌<◌, ◌≡◌, ◌≢◌, Bool, true, false, ◌∷◌, ◌++◌, arith, length, ap, ◌∙◌, sym, take,
  ltb→lt, le→leb, le→ltb, ltb, Bool-cases, inl, inr, append_assoc, length-append, ne→==, take-all,
  All-append,
}
use usmp_python.Errors.{Exn, Result, ok, err, is_frame_error, crc_error}
use usmp_python.Types.{Bytes, PacketType}
use usmp_python.Types.Codes.{packet_type-err}
use usmp_python.Bytes.{IsBytes, le16, le32}
use usmp_python.Bytes.Laws.{le16_value, le32_value}
use usmp_python.Crc.{crc16}
use usmp_python.Crc.Detect.{crc16_detects}
use usmp_python.Frame.{compute_frame_crc, decode_frame, check_crc}
use usmp_python.Frame.Shape.{by_header, decode_fields, decode_frame-fields}
use usmp_python.Frame.Decode.{short_fails}
use usmp_python.Frame.RoundTrip.{
  covered, covered-IsBytes, frame_crc, frame_crc-lt, compute_frame_crc-ok,
}

compute_frame_crc-total :
    (magic version type_ seq size : ℕ) (payload : Bytes)
    → magic < 65536
    → version < 256
    → type_ < 256
    → seq < 4294967296
    → size < 65536
    → (c : ℕ) × (compute_frame_crc magic version type_ seq size payload ≡ ok c)
unfolding compute_frame_crc
compute_frame_crc-total magic version type_ seq size payload hm hv ht hs hz = (
  crc16 ((((le16 magic) ++ (version ∷ type_ ∷ le32 seq)) ++ le16 size) ++ payload),
  simp (
    le→leb magic 0xffff (omega arith),
    le→leb version 0xff (omega arith),
    le→leb type_ 0xff (omega arith),
    le→leb seq 0xffff_ffff (omega arith),
    le→leb size 0xffff (omega arith),
  ),
)

-- The checksum test raises nothing but `CRCError` where the checksum can be computed.
check_crc-err :
    (v : Bool) (crc : ℕ) (r : Result ℕ) {e : Exn} {c : ℕ}
    → r ≡ ok c
    → check_crc v crc r ≡ err e
    → e ≡ crc_error
check_crc-err false crc r h k = cc
check_crc-err true crc (ok x) h k = ground arith
check_crc-err true crc (err x) h k = cc

fields_fail :
    (magic version type_ seq size crc : ℕ) (rest : Bytes) (v : Bool) (e : Exn)
    → type_ < 256
    → seq < 4294967296
    → decode_fields magic version type_ seq size crc rest v ≡ err e
    → is_frame_error e ≡ true
fields_fail magic version type_ seq size crc rest v e ht hs h = ground (
  arith,
  compute_frame_crc-total magic version type_ seq size (take size rest),
  check_crc-err v crc (compute_frame_crc magic version type_ seq size (take size rest)) {e = e},
  packet_type-err type_ {e = e},
)

long_fails :
    (v : Bool) (e : Exn) (bs : Bytes)
    → 12 ≤ length bs
    → IsBytes bs
    → decode_frame bs v ≡ err e
    → is_frame_error e ≡ true
long_fails v e =
    by_header (λ bs. IsBytes bs → decode_frame bs v ≡ err e → is_frame_error e ≡ true)
      λ b0 b1 b2 b3 b4 b5 b6 b7 b8 b9 b10 b11 rest hb h.
        fields_fail (b0 + 256 * b1) b2 b3 (b4 + 256 * b5 + 65536 * b6 + 16777216 * b7)
          (b8 + 256 * b9) (b10 + 256 * b11) rest v e (omega arith) (omega arith)
          (sym (decode_frame-fields b0 b1 b2 b3 b4 b5 b6 b7 b8 b9 b10 b11 rest v) ∙ h)

-- On any bytes, of any length and with the checksum test or without, `decode_frame` raises nothing
-- but `FrameError` and its subclasses: no `struct.error`, `IndexError` or `ValueError` escapes.
pub decode_frame_fails :
    (bs : Bytes) (v : Bool) (e : Exn)
    → IsBytes bs
    → decode_frame bs v ≡ err e
    → is_frame_error e ≡ true
decode_frame_fails bs v e hb h = elim (Bool-cases (ltb (length bs) 12)) [
  | inl short ↦ cc (short_fails bs v (ltb→lt _ _ short))
  | inr long ↦ long_fails v e bs (ground arith) hb h
]

-- A frame whose payload does not fit its checksum is refused with `CRCError`.
mismatch_refused :
    (t : PacketType) (payload : Bytes) (seq crc : ℕ)
    → length payload ≤ 480
    → seq < 4294967296
    → crc < 65536
    → crc ≢ frame_crc t payload seq
    → decode_frame (covered t seq (length payload) ++ (le16 crc ++ payload)) true ≡ err crc_error
mismatch_refused t payload seq crc hp hs hc ne =
    decode_frame-fields _ _ _ _ _ _ _ _ _ _ _ _ payload true
    ∙ rw (
      le32_value seq hs,
      le16_value (length payload) (omega arith),
      le16_value crc hc,
      le→ltb (length payload) 480 hp,
      le→ltb (length payload) (length payload) (omega arith),
      take-all (length payload) payload (omega arith),
      compute_frame_crc-ok t payload seq (length payload) hs (omega arith),
      ne→== crc (frame_crc t payload seq) ne,
    )

-- A byte of the payload that has changed on the way, in a frame that is whole otherwise, makes
-- `decode_frame` raise `CRCError`, whichever byte it is and whatever it has become.
pub decode_frame_changed :
    (t : PacketType) (xs ys : Bytes) (a b seq : ℕ)
    → IsBytes xs
    → IsBytes ys
    → a < 256
    → b < 256
    → a ≢ b
    → length (xs ++ b ∷ ys) ≤ 480
    → seq < 4294967296
    → decode_frame
        (covered t seq (length (xs ++ b ∷ ys))
          ++ (le16 (frame_crc t (xs ++ a ∷ ys) seq) ++ (xs ++ b ∷ ys)))
        true
      ≡ err crc_error
decode_frame_changed t xs ys a b seq hx hy ha hb ne hp hs =
    mismatch_refused t (xs ++ b ∷ ys) seq (frame_crc t (xs ++ a ∷ ys) seq) hp hs
      (frame_crc-lt t (xs ++ a ∷ ys) seq (All-append _ xs (a ∷ ys) hx (ha, hy))) differs
  where
    same_length : length (xs ++ a ∷ ys) ≡ length (xs ++ b ∷ ys)
    same_length = omega (arith, length-append xs (a ∷ ys), length-append xs (b ∷ ys))

    header : Bytes
    header = covered t seq (length (xs ++ b ∷ ys))

    regroup : (c : ℕ) → header ++ (xs ++ c ∷ ys) ≡ (header ++ xs) ++ c ∷ ys
    regroup c = sym (append_assoc header xs (c ∷ ys))

    differs : frame_crc t (xs ++ a ∷ ys) seq ≢ frame_crc t (xs ++ b ∷ ys) seq
    differs e =
        crc16_detects (header ++ xs) ys a b
          (All-append _ header xs (covered-IsBytes t seq (length (xs ++ b ∷ ys))) hx) hy ha hb ne
          (ap crc16 (sym (regroup a))
            ∙ ap (λ n. crc16 (covered t seq n ++ (xs ++ a ∷ ys))) (sym same_length)
            ∙ e
            ∙ ap crc16 (regroup b))
