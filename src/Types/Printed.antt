-- ===== src/Types/Printed.antt =====
-- How frames and identifiers are printed: `type_name`, `__str__`, `device_id_str` and
-- `session_id_str` of src/usmp/types.py.
use usmp_python.Prelude.{
  ℕ, ◌+◌, ◌/◌, ◌%◌, ◌≡◌, refl, [], ◌∷◌, ◌++◌, arith, ap, ap₂, ltb, if◌then◌else◌,
}
use usmp_python.Prelude.Texts.{Text, codes, decimal}
use usmp_python.Types.{Bytes, PacketType, UsmpFrame, SessionInfo}

abbrev pub hex_digit : ℕ → ℕ
hex_digit n = if ltb n 10 then 48 + n else 87 + n

-- `bytes.hex()` and `bytes.hex(":")`.
unfoldable pub hex : Bytes → Text
hex [] = []
hex (b ∷ bs) = hex_digit (b / 16) ∷ hex_digit (b % 16) ∷ hex bs

abbrev pub hex_after : Bytes → Text
hex_after [] = []
hex_after (b ∷ bs) = 58 ∷ hex_digit (b / 16) ∷ hex_digit (b % 16) ∷ hex_after bs

unfoldable pub hex_colons : Bytes → Text
hex_colons [] = []
hex_colons (b ∷ bs) = hex_digit (b / 16) ∷ hex_digit (b % 16) ∷ hex_after bs

abbrev pub device_id_str : SessionInfo → Text
device_id_str info = hex_colons info.device_id

abbrev pub session_id_str : SessionInfo → Text
session_id_str info = hex info.session_id

-- `type_name`: the type of a frame is a member, so it has a name.
unfoldable pub type_name : PacketType → Text
type_name PacketType.hello = codes "HELLO"
type_name PacketType.challenge = codes "CHALLENGE"
type_name PacketType.hello_ack = codes "HELLO_ACK"
type_name PacketType.session_ok = codes "SESSION_OK"
type_name PacketType.data_packet = codes "DATA"
type_name PacketType.ping = codes "PING"
type_name PacketType.pong = codes "PONG"
type_name PacketType.bye = codes "BYE"
type_name PacketType.data_frag = codes "DATA_FRAG"
type_name PacketType.hello_retry = codes "HELLO_RETRY"
type_name PacketType.rekey = codes "REKEY"
type_name PacketType.error = codes "ERROR"

-- `f"{n:04X}"` for a number of 16 bits.
abbrev pub upper_digit : ℕ → ℕ
upper_digit n = if ltb n 10 then 48 + n else 55 + n

abbrev pub upper_hex : ℕ → Text
upper_hex n =
    upper_digit (n / 4096)
    ∷ upper_digit (n / 256 % 16)
    ∷ upper_digit (n / 16 % 16)
    ∷ upper_digit (n % 16)
    ∷ []

-- `__str__` of a frame.
unfoldable pub frame_str : UsmpFrame → Text
frame_str f =
    codes "USMPFrame(type="
    ++ type_name f.kind
    ++ codes ", seq="
    ++ decimal f.seq
    ++ codes ", version="
    ++ decimal f.version
    ++ codes ", length="
    ++ decimal f.size
    ++ codes ", crc=0x"
    ++ upper_hex f.crc
    ++ codes ", payload="
    ++ hex f.payload
    ++ codes ")"

hex_digit_injective : (m n : ℕ) → hex_digit m ≡ hex_digit n → m ≡ n
hex_digit_injective m n h = ground arith

abbrev head : Text → ℕ
head [] = 0
head (x ∷ xs) = x

abbrev tail : Text → Text
tail [] = []
tail (x ∷ xs) = xs

byte_injective :
    (b c : ℕ) (s t : Text)
    → (hex_digit (b / 16) ∷ hex_digit (b % 16) ∷ s) ≡ (hex_digit (c / 16) ∷ hex_digit (c % 16) ∷ t)
    → (b ≡ c) × (s ≡ t)
byte_injective b c s t h =
    let high = hex_digit_injective (b / 16) (c / 16) (ap head h) in
    let low = hex_digit_injective (b % 16) (c % 16) (ap (λ x. head (tail x)) h) in
    (omega (arith, high, low), ap (λ x. tail (tail x)) h)

hex_injective : (bs cs : Bytes) → hex bs ≡ hex cs → bs ≡ cs
unfolding hex
hex_injective [] [] h = refl
hex_injective [] (c ∷ cs) h = cc
hex_injective (b ∷ bs) [] h = cc
hex_injective (b ∷ bs) (c ∷ cs) h =
    let (same, rest) = byte_injective b c (hex bs) (hex cs) h in
    ap₂ (λ x xs. x ∷ xs) same (hex_injective bs cs rest)

hex_after_injective : (bs cs : Bytes) → hex_after bs ≡ hex_after cs → bs ≡ cs
hex_after_injective [] [] h = refl
hex_after_injective [] (c ∷ cs) h = cc
hex_after_injective (b ∷ bs) [] h = cc
hex_after_injective (b ∷ bs) (c ∷ cs) h =
    let (same, rest) = byte_injective b c (hex_after bs) (hex_after cs) (ap tail h) in
    ap₂ (λ x xs. x ∷ xs) same (hex_after_injective bs cs rest)

hex_colons_injective : (bs cs : Bytes) → hex_colons bs ≡ hex_colons cs → bs ≡ cs
unfolding hex_colons
hex_colons_injective [] [] h = refl
hex_colons_injective [] (c ∷ cs) h = cc
hex_colons_injective (b ∷ bs) [] h = cc
hex_colons_injective (b ∷ bs) (c ∷ cs) h =
    let (same, rest) = byte_injective b c (hex_after bs) (hex_after cs) h in
    ap₂ (λ x xs. x ∷ xs) same (hex_after_injective bs cs rest)

-- Sessions that are printed alike have the same device and the same identifier.
pub id_str_injective :
    (i j : SessionInfo)
    → device_id_str i ≡ device_id_str j
    → session_id_str i ≡ session_id_str j
    → (i.device_id ≡ j.device_id) × (i.session_id ≡ j.session_id)
id_str_injective i j hd hs =
    (hex_colons_injective i.device_id j.device_id hd, hex_injective i.session_id j.session_id hs)
