-- ===== src/Transport/Write.antt =====
-- A write that the network delivers.
use usmp_python.Prelude.{ℕ, ◌≤◌, ◌<◌, ◌≡◌, [], ◌∷◌, ◌++◌, arith, length}
use usmp_python.Errors.{ok}
use usmp_python.Types.{Bytes, PacketType}
use usmp_python.Bytes.{IsBytes}
use usmp_python.Frame.RoundTrip.{wire, encode_frame-wire}
use usmp_python.Transport.{Link, write_frame}

-- The link after these bytes have gone out.
abbrev pub with_sent : Link → Bytes → Link
with_sent link bs = record link { outcomes = []; sent = link.sent ++ (bs ∷ []) }

pub write_frame-wire :
    (link : Link) (t : PacketType) (payload : Bytes) (seq : ℕ)
    → link.outcomes ≡ []
    → IsBytes payload
    → length payload ≤ 480
    → seq < 4294967296
    → write_frame link t payload seq ≡ (ok tt, with_sent link (wire t payload seq))
unfolding write_frame
write_frame-wire link t payload seq none_pending hb hp hs =
    ground (arith, encode_frame-wire t payload seq hb hp hs)
