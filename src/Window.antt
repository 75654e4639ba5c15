-- ===== src/Window.antt =====
-- The sliding replay window of `USMPSession.recv` (src/usmp/_session.py), on the counters of a
-- `SessionInfo`.
pub mod Seen
pub mod Run
pub mod Abstract
mod Tests
use usmp_python.Prelude.{
  ℕ, ◌+◌, ◌-◌, ◌*◌, ◌^◌, Bool, true, false, not, ltb, leb, ◌==◌, if◌then◌else◌, bit_and, bit_or,
}
use usmp_python.Types.{SessionInfo}

-- The two tests before decryption: too old, or marked in the bitmap. `seq <= rx_seq - 64` is
-- written without the difference, which may be negative.
unfoldable pub is_replayed : SessionInfo → ℕ → Bool
is_replayed info seq =
    if leb (seq + 64) info.rx_seq
    then true
    else if leb seq info.rx_seq
    then not (bit_and info.rx_window_bitmap (2 ^ (info.rx_seq - seq)) == 0)
    else false

-- `((bitmap << shift) & 0xFFFFFFFFFFFFFFFF) | 1`, or 1 where nothing of the window is left.
abbrev shifted : ℕ → ℕ → ℕ
shifted bitmap shift =
    if ltb shift 64 then bit_or (bit_and (bitmap * 2 ^ shift) 0xffff_ffff_ffff_ffff) 1 else 1

-- The update after successful verification.
unfoldable pub slide_window : SessionInfo → ℕ → SessionInfo
slide_window info seq =
    if ltb info.rx_seq seq
    then record info {
      rx_window_bitmap = shifted info.rx_window_bitmap (seq - info.rx_seq);
      rx_seq = seq;
    }
    else record info { rx_window_bitmap = bit_or info.rx_window_bitmap (2 ^ (info.rx_seq - seq)) }
