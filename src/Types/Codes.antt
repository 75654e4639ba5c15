-- ===== src/Types/Codes.antt =====
-- The members of `PacketType` and their numbers, and what a constructed `SessionInfo` satisfies.
use usmp_python.Prelude.{ℕ, ◌<◌, ◌≡◌, ◌↔◌, arith, length, subst, ◌≢◌}
use usmp_python.Errors.{Exn, ok, err, value_error}
use usmp_python.Types.{Bytes, PacketType, packet_code, packet_type, SessionInfo, session_info}

pub packet_type-packet_code : (t : PacketType) → packet_type (packet_code t) ≡ ok t
unfolding packet_type
packet_type-packet_code t = ground arith

pub packet_code-packet_type : (n : ℕ) (t : PacketType) → packet_type n ≡ ok t → packet_code t ≡ n
unfolding packet_type
packet_code-packet_type n t h = ground arith

pub packet_code-lt : (t : PacketType) → packet_code t < 256
packet_code-lt t = ground arith

pub packet_type-err : (n : ℕ) {e : Exn} → packet_type n ≡ err e → e ≡ value_error
unfolding packet_type
packet_type-err n h = ground arith

-- `PacketType(n)` succeeds with the member `t` exactly when `n` is the number of `t`, and raises
-- only `ValueError`.
pub packet_type_iff :
    (n : ℕ)
    → ((t : PacketType) → (packet_type n ≡ ok t) ↔ (packet_code t ≡ n))
      × ((e : Exn) → packet_type n ≡ err e → e ≡ value_error)
packet_type_iff n = (
  λ t. (
    packet_code-packet_type n t,
    λ e. subst (λ m. packet_type m ≡ ok t) e (packet_type-packet_code t),
  ),
  λ e. packet_type-err n,
)

-- `SessionInfo(...)` succeeds exactly when the identifiers and the keys have their lengths, and
-- then starts both sequences at 0 with an empty window; otherwise it raises `ValueError`.
pub session_info_iff :
    (d s t r : Bytes)
    → ((session_info d s t r ≢ err value_error)
        ↔ ((length d ≡ 6) × (length s ≡ 16) × (length t ≡ 32) × (length r ≡ 32)))
      × ((i : SessionInfo)
          → session_info d s t r ≡ ok i
          → (i.device_id ≡ d)
            × (i.session_id ≡ s)
            × (i.tx_key ≡ t)
            × (i.rx_key ≡ r)
            × (i.tx_seq ≡ 0)
            × (i.rx_seq ≡ 0)
            × (i.rx_window_bitmap ≡ 0))
unfolding session_info
session_info_iff d s t r = (ground arith, λ i h. ground arith)
