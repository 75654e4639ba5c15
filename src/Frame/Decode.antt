-- ===== src/Frame/Decode.antt =====
-- What `decode_frame` accepts and how it refuses.
use usmp_python.Prelude.{
  ℕ, ◌+◌, ◌*◌, ◌/◌, ◌%◌, ◌≤◌, ◌<◌, ◌≡◌, refl, Bool, true, false, ◌∷◌, arith, length, ap, ◌∙◌, sym,
  take, drop, length-take, lt→ltb, ltb→lt, suc, subst, All-drop, ltb, All-take, Bool-cases, inl,
  inr,
}
use usmp_python.Errors.{Exn, Result, ok, err, frame_error}
use usmp_python.Types.{Bytes, packet_code, packet_type, UsmpFrame}
use usmp_python.Types.Codes.{packet_code-packet_type}
use usmp_python.Bytes.{IsBytes}
use usmp_python.Frame.{compute_frame_crc, encode_frame, decode_frame, check_crc}
use usmp_python.Frame.Shape.{by_header, decode_fields, decode_frame-fields}
use usmp_python.Frame.RoundTrip.{encode_frame-wire, compute_frame_crc-ok, wire, frame_crc}

-- What a frame that was accepted says of the fields of the header.
pub record Accepted (magic version type_ seq size crc : ℕ) (rest : Bytes) (v : Bool) (f : UsmpFrame)
    : Type 0 where
  right_magic : magic ≡ 0xabcd
  right_version : version ≡ 2
  fits : size ≤ 480
  present : size ≤ length rest
  member : packet_type type_ ≡ ok f.kind
  summed : v ≡ true → compute_frame_crc magic version type_ seq size (take size rest) ≡ ok crc
  of_magic : f.magic ≡ magic
  of_version : f.version ≡ version
  of_seq : f.seq ≡ seq
  pub of_size : f.size ≡ size
  of_payload : f.payload ≡ take size rest

check_crc-ok :
    (v : Bool) (crc : ℕ) (r : Result ℕ) → check_crc v crc r ≡ ok tt → v ≡ true → r ≡ ok crc
check_crc-ok true crc (ok e) h t = ground arith
check_crc-ok true crc (err e) h t = cc
check_crc-ok false crc r h t = cc

pub accepted :
    (magic version type_ seq size crc : ℕ) (rest : Bytes) (v : Bool) (f : UsmpFrame)
    → decode_fields magic version type_ seq size crc rest v ≡ ok f
    → Accepted magic version type_ seq size crc rest v f
accepted magic version type_ seq size crc rest v f h =
    ground
      (arith, check_crc-ok v crc (compute_frame_crc magic version type_ seq size (take size rest)))

-- What is known of a frame that `decode_frame` returned.
pub record IsDecoded (bs : Bytes) (v : Bool) (f : UsmpFrame) : Type 0 where
  pub magic_ok : f.magic ≡ 0xabcd
  pub version_ok : f.version ≡ 2
  pub seq_fits : f.seq < 4294967296
  pub size_fits : f.size ≤ 480
  pub size_of_payload : f.size ≡ length f.payload
  pub whole : 12 + f.size ≤ length bs
  pub payload_at : f.payload ≡ take f.size (drop 12 bs)
  pub encodes :
      v ≡ true → encode_frame f.kind f.payload f.seq f.version ≡ ok (take (12 + f.size) bs)

length_taken : (n : ℕ) (xs : Bytes) → n ≤ length xs → length (take n xs) ≡ n
length_taken n xs h = omega (arith, length-take n xs)

pub short_fails : (bs : Bytes) (v : Bool) → length bs < 12 → decode_frame bs v ≡ err frame_error
unfolding decode_frame
short_fails bs v h = simp (lt→ltb (length bs) 12 h)

module _ (b0 b1 b2 b3 b4 b5 b6 b7 b8 b9 b10 b11 : ℕ) (rest : Bytes) where
  abbrev header_bytes : Bytes
  header_bytes = b0 ∷ b1 ∷ b2 ∷ b3 ∷ b4 ∷ b5 ∷ b6 ∷ b7 ∷ b8 ∷ b9 ∷ b10 ∷ b11 ∷ rest

  abbrev seq_field : ℕ
  seq_field = b4 + 256 * b5 + 65536 * b6 + 16777216 * b7

  abbrev size_field : ℕ
  size_field = b8 + 256 * b9

  abbrev crc_field : ℕ
  crc_field = b10 + 256 * b11

  take_header :
      (n : ℕ)
      → take (12 + n) header_bytes
        ≡ b0 ∷ b1 ∷ b2 ∷ b3 ∷ b4 ∷ b5 ∷ b6 ∷ b7 ∷ b8 ∷ b9 ∷ b10 ∷ b11 ∷ take n rest
  take_header n =
      let e : 12 + n ≡ suc (suc (suc (suc (suc (suc (suc (suc (suc (suc (suc (suc n))))))))))) =
        omega arith in
      ap (λ t. take t header_bytes) e

  module _ (f : UsmpFrame) (hb : IsBytes header_bytes)
      (a : Accepted (b0 + 256 * b1) b2 b3 seq_field size_field crc_field rest true f) where
    type_code : packet_code f.kind ≡ b3
    type_code = packet_code-packet_type b3 f.kind a.member

    payload_size : length f.payload ≡ size_field
    payload_size = ap length a.of_payload ∙ length_taken size_field rest a.present

    crc_agrees : frame_crc f.kind f.payload f.seq ≡ crc_field
    crc_agrees = cc (
      compute_frame_crc-ok f.kind f.payload f.seq (length f.payload) (omega arith)
          (omega (arith, payload_size)),
      a.summed refl,
      a.right_magic,
      a.right_version,
      a.of_seq,
      a.of_payload,
      type_code,
      payload_size,
    )

    -- The bytes of the header are those of an encoded frame.
    wire_bytes : wire f.kind f.payload f.seq ≡ take (12 + f.size) header_bytes
    wire_bytes = cc (
      take_header f.size,
      type_code,
      a.of_payload,
      ap (λ t. take t rest) a.of_size,
      magic_low,
      magic_high,
      seq_0,
      seq_1,
      seq_2,
      seq_3,
      size_low,
      size_high,
      crc_low,
      crc_high,
    )
      where
        magic_low : 205 ≡ b0
        magic_low = omega arith

        magic_high : 171 ≡ b1
        magic_high = omega arith

        seq_0 : f.seq % 256 ≡ b4
        seq_0 = omega arith

        seq_1 : f.seq / 256 % 256 ≡ b5
        seq_1 = omega arith

        seq_2 : f.seq / 65536 % 256 ≡ b6
        seq_2 = omega arith

        seq_3 : f.seq / 16777216 % 256 ≡ b7
        seq_3 = omega arith

        size_low : length f.payload % 256 ≡ b8
        size_low = omega (arith, payload_size)

        size_high : length f.payload / 256 % 256 ≡ b9
        size_high = omega (arith, payload_size)

        crc_low : frame_crc f.kind f.payload f.seq % 256 ≡ b10
        crc_low = omega (arith, crc_agrees)

        crc_high : frame_crc f.kind f.payload f.seq / 256 % 256 ≡ b11
        crc_high = omega (arith, crc_agrees)

  decoded_true :
      (f : UsmpFrame)
      → IsBytes header_bytes
      → Accepted (b0 + 256 * b1) b2 b3 seq_field size_field crc_field rest true f
      → encode_frame f.kind f.payload f.seq f.version ≡ ok (take (12 + f.size) header_bytes)
  decoded_true f hb a =
      let payload_bytes : IsBytes f.payload =
        subst IsBytes (sym a.of_payload)
          (All-take (λ b. b < 256) size_field rest (All-drop (λ b. b < 256) 12 header_bytes hb)) in
      let e : f.version ≡ 2 = a.of_version ∙ a.right_version in
      rw e (
        encode_frame-wire f.kind f.payload f.seq payload_bytes (omega (arith, payload_size f hb a))
          (omega arith)
        ∙ ap ok (wire_bytes f hb a))

  IsDecoded-header :
      (v : Bool) (f : UsmpFrame)
      → IsBytes header_bytes
      → Accepted (b0 + 256 * b1) b2 b3 seq_field size_field crc_field rest v f
      → IsDecoded header_bytes v f
  IsDecoded-header v f hb a = record {
    magic_ok = a.of_magic ∙ a.right_magic;
    version_ok = a.of_version ∙ a.right_version;
    seq_fits = omega arith;
    size_fits = omega arith;
    size_of_payload =
        sym (ap length a.of_payload ∙ length_taken size_field rest a.present ∙ sym a.of_size);
    whole = omega arith;
    payload_at = a.of_payload ∙ ap (λ t. take t rest) (sym a.of_size);
    encodes = λ e. decoded_true f hb (subst Shown e a);
  }
    where
      Shown : Bool → Type 0
      Shown w = Accepted (b0 + 256 * b1) b2 b3 seq_field size_field crc_field rest w f

long_decodes :
    (v : Bool) (f : UsmpFrame) (bs : Bytes)
    → 12 ≤ length bs
    → IsBytes bs
    → decode_frame bs v ≡ ok f
    → IsDecoded bs v f
long_decodes v f =
    by_header (λ bs. IsBytes bs → decode_frame bs v ≡ ok f → IsDecoded bs v f)
      λ b0 b1 b2 b3 b4 b5 b6 b7 b8 b9 b10 b11 rest hb h.
        IsDecoded-header b0 b1 b2 b3 b4 b5 b6 b7 b8 b9 b10 b11 rest v f hb (
          accepted _ b2 b3 _ _ _ rest v f
            (sym (decode_frame-fields b0 b1 b2 b3 b4 b5 b6 b7 b8 b9 b10 b11 rest v) ∙ h))

ok_not_err {ℓ} : {A : Type ℓ} {a : A} {e : Exn} → ok a ≡ err e → ⊥
ok_not_err h = cc

-- Whatever `decode_frame` accepts is a frame of the protocol: the magic and the version are right,
-- the payload is the declared number of bytes behind the header and at most 480 of them, and, if
-- the checksum is tested, encoding the fields gives back exactly the bytes that were read.
pub decode_frame-IsDecoded :
    (bs : Bytes) (v : Bool) (f : UsmpFrame)
    → IsBytes bs
    → decode_frame bs v ≡ ok f
    → IsDecoded bs v f
decode_frame-IsDecoded bs v f hb h = elim (Bool-cases (ltb (length bs) 12)) [
  | inl short ↦ absurd (ok_not_err (sym h ∙ short_fails bs v (ltb→lt _ _ short)))
  | inr long ↦ long_decodes v f bs (ground arith) hb h
]
