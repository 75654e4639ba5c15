-- ===== src/Frame/Shape.antt =====
-- A datagram of at least a header, taken apart into the bytes of the header and what follows.
use usmp_python.Prelude.{
  ℕ, ◌+◌, ◌*◌, ◌≤◌, ◌≡◌, Bool, not, ◌∷◌, arith, ltb, leb, suc, true, false, ◌==◌, length, take,
}
use usmp_python.Errors.{
  Result, ok, ◌>>=◌, ◌>>◌, raise_if, magic_error, version_error, payload_error,
}
use usmp_python.Types.{Bytes, packet_type, UsmpFrame, usmp_magic, usmp_version, usmp_max_payload}
use usmp_python.Frame.{compute_frame_crc, check_crc, or_frame_error, decode_frame}

-- To prove something of every byte string with a header, prove it with the header's bytes named.
pub by_header {κ} :
    (P : Bytes → Type κ)
    → ((b0 b1 b2 b3 b4 b5 b6 b7 b8 b9 b10 b11 : ℕ) (rest : Bytes)
        → P (b0 ∷ b1 ∷ b2 ∷ b3 ∷ b4 ∷ b5 ∷ b6 ∷ b7 ∷ b8 ∷ b9 ∷ b10 ∷ b11 ∷ rest))
    → (bs : Bytes) → 12 ≤ length bs
    → P bs
by_header P p (b0 ∷ b1 ∷ b2 ∷ b3 ∷ b4 ∷ b5 ∷ b6 ∷ b7 ∷ b8 ∷ b9 ∷ b10 ∷ b11 ∷ rest) h =
    p b0 b1 b2 b3 b4 b5 b6 b7 b8 b9 b10 b11 rest
by_header P p _ h = absurd (omega arith)

-- `decode_frame` on the parts of a header.
abbrev pub decode_fields : ℕ → ℕ → ℕ → ℕ → ℕ → ℕ → Bytes → Bool → Result UsmpFrame
decode_fields magic version type_ seq size crc rest verify_crc = do
  raise_if (not (magic == usmp_magic)) magic_error
  raise_if (not (version == usmp_version)) version_error
  raise_if (ltb usmp_max_payload size) payload_error
  raise_if (ltb (length rest) size) payload_error
  let payload = take size rest
  check_crc verify_crc crc (compute_frame_crc magic version type_ seq size payload)
  kind ← or_frame_error (packet_type type_)
  ok (record {
    magic = magic;
    version = version;
    kind = kind;
    seq = seq;
    size = size;
    crc = crc;
    payload = payload;
  })

-- The tests on a length of at least twelve.
module _ (n : ℕ) where
  abbrev twelve_more : ℕ
  twelve_more = suc (suc (suc (suc (suc (suc (suc (suc (suc (suc (suc (suc n)))))))))))

  not_short : ltb twelve_more 12 ≡ false
  not_short = ground arith

  has_magic : leb (0 + 2) twelve_more ≡ true
  has_magic = ground arith

  has_version : ltb 2 twelve_more ≡ true
  has_version = ground arith

  has_type : ltb 3 twelve_more ≡ true
  has_type = ground arith

  has_seq : leb (4 + 4) twelve_more ≡ true
  has_seq = ground arith

  has_size : leb (8 + 2) twelve_more ≡ true
  has_size = ground arith

  has_crc : leb (10 + 2) twelve_more ≡ true
  has_crc = ground arith

  truncated : (size : ℕ) → ltb twelve_more (12 + size) ≡ ltb n size
  truncated size = ground arith

pub decode_frame-fields :
    (b0 b1 b2 b3 b4 b5 b6 b7 b8 b9 b10 b11 : ℕ) (rest : Bytes) (v : Bool)
    → decode_frame (b0 ∷ b1 ∷ b2 ∷ b3 ∷ b4 ∷ b5 ∷ b6 ∷ b7 ∷ b8 ∷ b9 ∷ b10 ∷ b11 ∷ rest) v
      ≡ decode_fields
          (b0 + 256 * b1)
          b2
          b3
          (b4 + 256 * b5 + 65536 * b6 + 16777216 * b7)
          (b8 + 256 * b9)
          (b10 + 256 * b11)
          rest
          v
unfolding decode_frame
decode_frame-fields b0 b1 b2 b3 b4 b5 b6 b7 b8 b9 b10 b11 rest v =
    let n = length rest in
    simp (
      not_short n,
      has_magic n,
      has_version n,
      has_type n,
      has_seq n,
      has_size n,
      has_crc n,
      truncated n,
    )
