-- ===== src/Session/State.antt =====
-- The state of a session and the monad of its methods.
use usmp_python.Prelude.{ℕ, Bool, false, Option, none, List, []}
use usmp_python.Errors.{Exn, Result, ok, err}
use usmp_python.Types.{Bytes, SessionInfo}
use usmp_python.Transport.{Link}

pub record Session : Type 0 where
  pub info : SessionInfo
  pub link : Link
  -- `_last_recv` and `_recv_timeout`, in milliseconds, and `_closed`.
  pub last_recv : ℕ
  pub recv_timeout : Option ℕ
  pub closed : Bool
  -- The key and the sequence number of each call of `encrypt` so far, latest first. The code keeps
  -- no such list: it is here for the statements.
  pub seals : List (Bytes × ℕ)

abbrev pub M : Type 0 → Type 0
M A = Session → Result A × Session

module _ {A : Type 0} where
  abbrev pub pure : A → M A
  pure a s = (ok a, s)

  abbrev pub raise : Exn → M A
  raise e s = (err e, s)

  abbrev pub lift : Result A → M A
  lift r s = (r, s)

abbrev pub gets : {A : Type 0} → (Session → A) → M A
gets f s = (ok (f s), s)

abbrev pub modify : (Session → Session) → M (Unit {0})
modify f s = (ok tt, f s)

infixl 5 ◌>>=◌ ◌>>◌
abbrev pub ◌>>=◌ : {A B : Type 0} → M A → (A → M B) → M B
◌>>=◌ m f s = let (r, s') = m s in elim r [ ok a ↦ f a s' | err e ↦ (err e, s') ]

abbrev pub ◌>>◌ : {B : Type 0} → M (Unit {0}) → M B → M B
m >> k = m >>= λ _. k

-- `USMPSession(transport, info)`, at this time.
unfoldable pub new_session : Link → SessionInfo → ℕ → Session
new_session link info now = record {
  info = info;
  link = link;
  last_recv = now;
  recv_timeout = none;
  closed = false;
  seals = [];
}
