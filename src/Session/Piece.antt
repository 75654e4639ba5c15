-- ===== src/Session/Piece.antt =====
-- The packets of a message over UDP, each with what arrives until the next one does.
use usmp_python.Prelude.{
  ℕ, ◌+◌, ◌≤◌, ◌<◌, ◌≡◌, refl, ◌∙◌, true, false, List, [], ◌∷◌, ◌++◌, arith, All, All-map,
  Bool-cases, ◌⊎◌, inl, inr, ltb,
}
use usmp_python.Errors.{Exn, ok, err}
use usmp_python.Types.{Bytes, PacketType, UsmpFrame, SessionInfo}
use usmp_python.Crypto.{Primitives}
use usmp_python.Window.{is_replayed, slide_window}
use usmp_python.Window.Seen.{seen, Shows, is_replayed_iff}
use usmp_python.Session.State.{Session}
use usmp_python.Session.Recv.{Arrival, open_frame}
use usmp_python.Session.Drop.{protocol_error, Invalid}

-- The frame does not decode, its number was accepted before, or it does not open.
abbrev pub Useless : Primitives → SessionInfo → List ℕ → Arrival → Type 0
Useless p info ss a =
    ((e : Exn) × (a.frame ≡ err e) × (protocol_error e ≡ true))
    ⊎ ((f : UsmpFrame) × (a.frame ≡ ok f)
        × ((seen f.seq ss ≡ true)
            ⊎ ((e : Exn) × (open_frame p info f ≡ err e) × (protocol_error e ≡ true))))

-- A packet with its plaintext, its first arrival, and what arrives until the next packet does.
pub record Piece : Type 0 where
  pub frame : UsmpFrame
  pub plaintext : Bytes
  pub first : Arrival
  pub others : List Arrival

abbrev pub arrivals_of : Piece → List Arrival
arrivals_of x = x.first ∷ x.others

-- What arrives of a first piece and the ones that follow it, and the message.
abbrev pub all_arrivals : Piece → List Piece → List Arrival
all_arrivals x [] = arrivals_of x
all_arrivals x (y ∷ ys) = arrivals_of x ++ all_arrivals y ys

abbrev pub message_of : Piece → List Piece → Bytes
message_of x [] = x.plaintext
message_of x (y ∷ ys) = x.plaintext ++ message_of y ys

abbrev pub last_others : Piece → List Piece → List Arrival
last_others x [] = x.others
last_others x (y ∷ ys) = last_others y ys

abbrev pub all_seen : List ℕ → Piece → List Piece → List ℕ
all_seen ss x [] = x.frame.seq ∷ ss
all_seen ss x (y ∷ ys) = all_seen (x.frame.seq ∷ ss) y ys

-- The piece has the number n and the kind, a session with this information opens it, and what
-- arrives with it is useless to one that has accepted its number and the others.
pub record IsPiece (p : Primitives) (info : SessionInfo) (ss : List ℕ) (n : ℕ) (kind : PacketType)
    (x : Piece) : Type 0 where
  pub numbered : x.frame.seq ≡ n
  pub of_kind : x.frame.kind ≡ kind
  pub opens : open_frame p info x.frame ≡ ok x.plaintext
  pub arrives : x.first.frame ≡ ok x.frame
  pub useless : All (Useless p info (x.frame.seq ∷ ss)) x.others

-- Fragments with consecutive numbers from n on, and the last packet.
abbrev pub IsMessage : Primitives → SessionInfo → List ℕ → ℕ → Piece → List Piece → Type 0
IsMessage p info ss n x [] = IsPiece p info ss n PacketType.data_packet x
IsMessage p info ss n x (y ∷ ys) =
    IsPiece p info ss n PacketType.data_frag x × IsMessage p info (x.frame.seq ∷ ss) (n + 1) y ys

-- A session over UDP that has accepted no number from n on.
pub record Awaits (n : ℕ) (ss : List ℕ) (r : Session) : Type 0 where
  pub udp : r.link.is_reliable ≡ false
  pub window : Shows r.info ss
  pub unseen : (k : ℕ) → n ≤ k → seen k ss ≡ false
  pub recent : r.info.rx_seq < n + 64

open_frame-slide :
    (p : Primitives) (info : SessionInfo) (n : ℕ) (f : UsmpFrame)
    → open_frame p (slide_window info n) f ≡ open_frame p info f
unfolding open_frame slide_window
open_frame-slide p info n f = elim (Bool-cases (ltb info.rx_seq n)) [
  | inl ahead ↦ rw ahead refl
  | inr behind ↦ rw behind refl
]

pub slide-below :
    (info : SessionInfo) (n : ℕ) → info.rx_seq < n + 64 → (slide_window info n).rx_seq < n + 1 + 64
unfolding slide_window
slide-below info n h = ground (arith, h)

seen-is_replayed :
    (info : SessionInfo) (ss : List ℕ) (n : ℕ)
    → Shows info ss
    → seen n ss ≡ true
    → is_replayed info n ≡ true
seen-is_replayed info ss n w again = elim (Bool-cases (is_replayed info n)) [
  | inl marked ↦ marked
  | inr unmarked ↦
      let new = ((is_replayed_iff info ss n w).0 unmarked).0 in absurd (ground (arith, new, again))
]

module _ (p : Primitives) (info : SessionInfo) (ss : List ℕ) where
  pub Useless-Invalid : (a : Arrival) → Shows info ss → Useless p info ss a → Invalid p info a
  Useless-Invalid a w (inl broken) = inl broken
  Useless-Invalid a w (inr (f, e, inl again)) =
      inr (f, e, inl (seen-is_replayed info ss f.seq w again))
  Useless-Invalid a w (inr (f, e, inr closed)) = inr (f, e, inr closed)

  Useless-slide : (m : ℕ) (a : Arrival) → Useless p info ss a → Useless p (slide_window info m) ss a
  Useless-slide m a (inl broken) = inl broken
  Useless-slide m a (inr (f, e, inl again)) = inr (f, e, inl again)
  Useless-slide m a (inr (f, e, inr (x, closed, known))) =
      inr (f, e, inr (x, open_frame-slide p info m f ∙ closed, known))

module _ (p : Primitives) where
  pub IsPiece-slide :
      (info : SessionInfo) (m : ℕ) (ss : List ℕ) (n : ℕ) (kind : PacketType) (x : Piece)
      → IsPiece p info ss n kind x
      → IsPiece p (slide_window info m) ss n kind x
  IsPiece-slide info m ss n kind x h = record {
    numbered = h.numbered;
    of_kind = h.of_kind;
    opens = open_frame-slide p info m x.frame ∙ h.opens;
    arrives = h.arrives;
    useless = All-map _ _ x.others (Useless-slide p info (x.frame.seq ∷ ss) m) h.useless;
  }

  pub IsMessage-slide :
      (info : SessionInfo) (m : ℕ) (ss : List ℕ) (n : ℕ) (x : Piece) (xs : List Piece)
      → IsMessage p info ss n x xs
      → IsMessage p (slide_window info m) ss n x xs
  IsMessage-slide info m ss n x [] h = IsPiece-slide info m ss n PacketType.data_packet x h
  IsMessage-slide info m ss n x (y ∷ ys) (h, rest) = (
    IsPiece-slide info m ss n PacketType.data_frag x h,
    IsMessage-slide info m (x.frame.seq ∷ ss) (n + 1) y ys rest,
  )
