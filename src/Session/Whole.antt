-- ===== src/Session/Whole.antt =====
-- A message of several packets over UDP, among copies, replays and packets that do not verify.
use usmp_python.Prelude.{ℕ, List}
use usmp_python.Types.{PacketType}
use usmp_python.Crypto.{Primitives}
use usmp_python.Session.State.{Session}
use usmp_python.Session.Once.{IsNew, accepted}
use usmp_python.Session.Piece.{Piece, IsPiece, Awaits}

module _ (p : Primitives) where
  module _ (n : ℕ) (kind : PacketType) (x : Piece) (ss : List ℕ) (r : Session)
      (new : IsNew p x.frame x.plaintext ss r) (w : Awaits n ss r)
      (h : IsPiece p r.info ss n kind x) where
    abbrev next_session : Session
    next_session = accepted p x.frame x.plaintext ss r new x.first.read_at
