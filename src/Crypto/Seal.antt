-- ===== src/Crypto/Seal.antt =====
-- `encrypt` and `decrypt`: the round trip, and that `decrypt` accepts nothing but what `encrypt`
-- makes of the same header. The additional data determines the header.
use usmp_python.Prelude.{
  ℕ, ◌+◌, ◌<◌, ◌≡◌, sym, ap, ◌∙◌, ◌↔◌, ◌∷◌, ◌++◌, arith, length, take, drop, take-append,
  drop-append, take-append-drop, length-append, bytes_eq_refl, eq_of_bytes_eq, le→ltb, le→leb,
  get_or, subst, All-append,
}
use usmp_python.Errors.{Exn, ok, err, crypto_error}
use usmp_python.Types.{Bytes, CipherSuite}
use usmp_python.Bytes.{IsBytes, le16, le32}
use usmp_python.Crypto.{Primitives, build_aad, encrypt, decrypt}
use usmp_python.Crypto.Laws.{IsAead}

-- The fields of a header that fit their widths.
pub record Fits (magic version type_ seq size : ℕ) : Type 0 where
  pub magic_fits : magic < 65536
  pub version_fits : version < 256
  pub type_fits : type_ < 256
  pub seq_fits : seq < 4294967296
  pub size_fits : size < 65536

abbrev aad_bytes : ℕ → ℕ → ℕ → ℕ → ℕ → Bytes
aad_bytes magic version type_ seq size = le16 magic ++ (version ∷ type_ ∷ (le32 seq ++ le16 size))

aad_fits :
    (magic version type_ seq size : ℕ) (x : Bytes)
    → build_aad magic version type_ seq size ≡ ok x
    → Fits magic version type_ seq size × (x ≡ aad_bytes magic version type_ seq size)
unfolding build_aad
aad_fits magic version type_ seq size x h = ground arith

pub build_aad-ok :
    (magic version type_ seq size : ℕ)
    → Fits magic version type_ seq size
    → build_aad magic version type_ seq size ≡ ok (aad_bytes magic version type_ seq size)
unfolding build_aad
build_aad-ok magic version type_ seq size f = simp (
  le→leb magic 0xffff (omega arith),
  le→leb version 0xff (omega arith),
  le→leb type_ 0xff (omega arith),
  le→leb seq 0xffff_ffff (omega arith),
  le→leb size 0xffff (omega arith),
)

byte_of : (i : ℕ) {xs ys : Bytes} → xs ≡ ys → get_or xs i 0 ≡ get_or ys i 0
byte_of i e = ap (λ bs. get_or bs i 0) e

-- The additional data of a message binds every field of its header: two headers with the same
-- data are the same.
pub build_aad_injective :
    (m v t s n m' v' t' s' n' : ℕ) (x : Bytes)
    → build_aad m v t s n ≡ ok x
    → build_aad m' v' t' s' n' ≡ ok x
    → (m ≡ m') × (v ≡ v') × (t ≡ t') × (s ≡ s') × (n ≡ n')
build_aad_injective m v t s n m' v' t' s' n' x h h' =
    let (f, e) = aad_fits m v t s n x h in
    let (f', e') = aad_fits m' v' t' s' n' x h' in
    let same : aad_bytes m v t s n ≡ aad_bytes m' v' t' s' n' = sym e ∙ e' in
    omega (
      arith,
      byte_of 0 same,
      byte_of 1 same,
      byte_of 2 same,
      byte_of 3 same,
      byte_of 4 same,
      byte_of 5 same,
      byte_of 6 same,
      byte_of 7 same,
      byte_of 8 same,
      byte_of 9 same,
      f,
      f',
    )

module _ (p : Primitives) (laws : IsAead p) (key nonce : Bytes) (seq type_ version magic : ℕ)
    (suite : CipherSuite) (twelve : length nonce ≡ 12) where
  -- The parts of a sealed message.
  sealed_parts :
      (m d : Bytes)
      → encrypt p key nonce seq type_ version magic m suite ≡ ok d
      → (aad : Bytes) × (c : Bytes) × (build_aad magic version type_ seq (12 + length m + 16)
          ≡ ok aad)
        × (p.aead suite key ≡ ok tt)
        × (p.aead_encrypt suite key nonce m aad ≡ ok c)
        × (d ≡ nonce ++ c)
  unfolding encrypt
  sealed_parts m d h = ground arith

  pub sealed_length :
      (m d : Bytes)
      → encrypt p key nonce seq type_ version magic m suite ≡ ok d
      → length d ≡ 12 + length m + 16
  sealed_length m d h =
      let (aad, c, _, _, e, cut) = sealed_parts m d h in
      omega
        (arith, ap length cut, length-append nonce c, laws.sealed_length suite key nonce m aad c e)

  decrypt-parts :
      (aad m c : Bytes)
      → build_aad magic version type_ seq (12 + length m + 16) ≡ ok aad
      → p.aead suite key ≡ ok tt
      → length c ≡ length m + 16
      → p.aead_decrypt suite key nonce c aad ≡ ok m
      → decrypt p key nonce seq type_ version magic (12 + length m + 16) (nonce ++ c) suite ≡ ok m
  unfolding decrypt
  decrypt-parts aad m c ha hk hl hd = rw (
    le→ltb 28 (length (nonce ++ c)) (omega (arith, length-append nonce c)),
    take-append 12 nonce c twelve,
    drop-append 12 nonce c twelve,
    bytes_eq_refl nonce,
    ha,
    hk,
    hd,
  )

  opened_parts :
      (size : ℕ) (d m : Bytes)
      → decrypt p key nonce seq type_ version magic size d suite ≡ ok m
      → (aad : Bytes) × (take 12 d ≡ nonce)
        × (build_aad magic version type_ seq size ≡ ok aad)
        × (p.aead suite key ≡ ok tt)
        × (p.aead_decrypt suite key nonce (drop 12 d) aad ≡ ok m)
  unfolding decrypt
  opened_parts size d m h = ground (arith, eq_of_bytes_eq (take 12 d) nonce)

  encrypt-parts :
      (aad m c : Bytes)
      → build_aad magic version type_ seq (12 + length m + 16) ≡ ok aad
      → p.aead suite key ≡ ok tt
      → p.aead_encrypt suite key nonce m aad ≡ ok c
      → encrypt p key nonce seq type_ version magic m suite ≡ ok (nonce ++ c)
  unfolding encrypt
  encrypt-parts aad m c ha hk he = rw (ha, hk, he)

  -- With a 12-byte nonce, `decrypt` under a header that declares the message's own length returns
  -- a plaintext exactly when the message is what `encrypt` makes of it under the same key, nonce,
  -- sequence number, type, version and magic.
  pub decrypt_iff :
      (d m : Bytes)
      → (decrypt p key nonce seq type_ version magic (length d) d suite ≡ ok m)
        ↔ (encrypt p key nonce seq type_ version magic m suite ≡ ok d)
  decrypt_iff d m = (there, back)
    where
      there :
          decrypt p key nonce seq type_ version magic (length d) d suite ≡ ok m
          → encrypt p key nonce seq type_ version magic m suite ≡ ok d
      there h =
          let (aad, cut, ha, hk, hd) = opened_parts (length d) d m h in
          let he : p.aead_encrypt suite key nonce m aad ≡ ok (drop 12 d) =
            laws.authentic suite key nonce m aad (drop 12 d) hd in
          let whole : nonce ++ drop 12 d ≡ d =
            ap (λ t. t ++ drop 12 d) (sym cut) ∙ take-append-drop 12 d in
          let size : length d ≡ 12 + length m + 16 = omega (
            arith,
            ap length whole,
            length-append nonce (drop 12 d),
            laws.sealed_length suite key nonce m aad (drop 12 d) he,
          ) in
          encrypt-parts aad m (drop 12 d)
            (subst (λ n. build_aad magic version type_ seq n ≡ ok aad) size ha) hk he
          ∙ ap ok whole

      back :
          encrypt p key nonce seq type_ version magic m suite ≡ ok d
          → decrypt p key nonce seq type_ version magic (length d) d suite ≡ ok m
      back h =
          let (aad, c, ha, hk, he, cut) = sealed_parts m d h in
          rw (sealed_length m d h, cut)
            (decrypt-parts aad m c ha hk (laws.sealed_length suite key nonce m aad c he)
              (laws.opens suite key nonce m aad c he))

  -- With a 32-byte key and a header that fits its fields, `encrypt` succeeds.
  pub encrypt-total :
      (m : Bytes)
      → length key ≡ 32
      → Fits magic version type_ seq (12 + length m + 16)
      → (d : Bytes) × (encrypt p key nonce seq type_ version magic m suite ≡ ok d)
  encrypt-total m hk f =
      let (c, e) =
        laws.seals suite key nonce m (aad_bytes magic version type_ seq (12 + length m + 16)) hk
          twelve in
      (
        nonce ++ c,
        encrypt-parts (aad_bytes magic version type_ seq (12 + length m + 16)) m c
            (build_aad-ok magic version type_ seq (12 + length m + 16) f)
            (laws.accepts_key suite key hk) e,
      )

  pub sealed-IsBytes :
      (m d : Bytes)
      → IsBytes nonce
      → IsBytes m
      → encrypt p key nonce seq type_ version magic m suite ≡ ok d
      → IsBytes d
  sealed-IsBytes m d hn hm h =
      let (aad, c, _, _, e, cut) = sealed_parts m d h in
      subst IsBytes (sym cut)
        (All-append _ nonce c hn (laws.sealed_bytes suite key nonce m aad c hn hm e))

-- `decrypt` raises nothing but `CryptoError` under a key of 32 bytes and a header that fits.
pub decrypt_fails :
    (p : Primitives) (laws : IsAead p) (key nonce d : Bytes) (seq type_ version magic size : ℕ)
    (suite : CipherSuite) (e : Exn)
    → length key ≡ 32
    → Fits magic version type_ seq size
    → decrypt p key nonce seq type_ version magic size d suite ≡ err e
    → e ≡ crypto_error
unfolding decrypt
decrypt_fails p laws key nonce d seq type_ version magic size suite e hk f h =
    ground (arith, build_aad-ok magic version type_ seq size f, laws.accepts_key suite key hk)
