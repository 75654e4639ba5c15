-- ===== src/Client.antt =====
-- `USMPClient` of src/usmp/_client.py. The transport class, the frames that the server will send,
-- the private key and the clock are arguments of `connect`. Between the calls `_transport` is the
-- transport of the session or `None`.
pub mod Deliver
mod Tests
use usmp_python.Prelude.{
  ℕ, Bool, true, false, Option, none, some, List, [], ◌∷◌, ◌++◌, if◌then◌else◌,
}
use usmp_python.Errors.{
  Exn, Result, ok, err, not_connected_error, timeout_error, usmp_timeout_error,
}
use usmp_python.Types.{Bytes, UsmpFrame, SessionInfo}
use usmp_python.Crypto.{Primitives}
use usmp_python.Transport.{Link, close}
use usmp_python.Session.State.{Session, new_session}
use usmp_python.Session.Send.{bye}
use usmp_python.Handshake.State.{Wire}
use usmp_python.Handshake.Client.{client_handshake}

pub record Client : Type 0 where
  pub psk : Bytes
  pub device_id : Bytes
  pub session : Option Session
  -- Whether `_transport` is the transport of the session.
  pub has_transport : Bool
  -- The transports that the client gave up, in their last state. The code keeps no such list.
  pub dropped : List Link

-- The transport of a session that another one replaces.
abbrev pub replaced : Option Session → List Link
replaced none = []
replaced (some s) = s.link ∷ []

-- `isinstance(e, TimeoutError)`, which becomes `USMPTimeoutError`. When the time of
-- `asyncio.wait_for` is over, the read that waits ends with `TimeoutError`.
abbrev pub as_timeout : Exn → Exn
as_timeout timeout_error = usmp_timeout_error
as_timeout e = e

abbrev pub connected : ℕ → Result SessionInfo × Wire → Client → Result (Unit {0}) × Client
connected now (ok info, w) c = (
  ok tt,
  record c {
    session = some (new_session w.link info now);
    has_transport = true;
    dropped = c.dropped ++ replaced c.session;
  },
)
connected now (err e, w) c = (
  err (as_timeout e),
  record c { has_transport = false; dropped = c.dropped ++ (close w.link ∷ []) },
)

-- The transport that `connect` of the class returns or its error, the frames to come, the private
-- key, and the clock.
unfoldable pub connect :
    Primitives
    → Result Link
    → List (Result UsmpFrame)
    → Bytes
    → ℕ
    → Client
    → Result (Unit {0}) × Client
connect p (err e) reads priv now c = (err e, c)
connect p (ok link) reads priv now c =
    connected now
      (client_handshake p c.psk c.device_id priv
        (record { link = link; reads = reads; failures = [] }))
      c

-- A method of the session, if there is one.
abbrev pub with_session :
    {A : Type 0} → (Session → Result A × Session) → Option Session → Client → Result A × Client
with_session f none c = (err not_connected_error, c)
with_session f (some s) c = let (r, s') = f s in (r, record c { session = some s' })

-- `send`, `recv` and `ping` are this for the method of that name.
unfoldable pub ensure_connected :
    {A : Type 0} → (Session → Result A × Session) → Client → Result A × Client
ensure_connected f c = with_session f c.session c

abbrev pub disconnected : Primitives → Option Session → Client → Result (Unit {0}) × Client
disconnected p none c = (ok tt, record c { has_transport = false })
disconnected p (some s) c =
    let (r, s') = bye p s in
    (
      r,
      record c {
        session = none;
        has_transport = false;
        dropped = c.dropped ++ ((if c.has_transport then close s'.link else s'.link) ∷ []);
      },
    )

unfoldable pub disconnect : Primitives → Client → Result (Unit {0}) × Client
disconnect p c = disconnected p c.session c
