-- ===== src/Client/Deliver.antt =====
-- From `connect` to the server's `recv`: the handshake and the first message over TCP.
use usmp_python.Prelude.{
  ℕ, ◌≤◌, ◌≡◌, true, false, Option, some, List, [], ◌∷◌, ◌++◌, arith, length, ap, ap₂, ◌∙◌, sym,
  subst,
}
use usmp_python.Errors.{Result, ok}
use usmp_python.Types.{Bytes, UsmpFrame, SessionInfo}
use usmp_python.Bytes.{IsBytes}
use usmp_python.Crypto.{Primitives}
use usmp_python.Crypto.Laws.{IsAead, IsSized, IsExchange, IsHkdf}
use usmp_python.Frame.{decode_frame}
use usmp_python.Transport.{Link}
use usmp_python.Session.State.{Session, new_session}
use usmp_python.Session.Send.{send}
use usmp_python.Session.Recv.{Arrival, recv}
use usmp_python.Session.Exchange.{Read}
use usmp_python.Session.Deliver.{sent_since, send-recv}
use usmp_python.Handshake.Limiter.{check_lockout}
use usmp_python.Handshake.Psk.{PskSource, resolve_psk}
use usmp_python.Handshake.State.{Wire}
use usmp_python.Handshake.Server.{server_handshake}
use usmp_python.Handshake.Client.{client_handshake}
use usmp_python.Handshake.Setting.{Setting, hello_wire, challenge_wire, ack_wire, reply_wire, IsFit}
use usmp_python.Handshake.Agree.{handshake_agrees, handshake-Peers}
use usmp_python.Client.{Client, connect, connected, ensure_connected, with_session}

ok_injective : {A : Type 0} {a b : A} → ok a ≡ ok b → a ≡ b
ok_injective h = cc

some_injective : {A : Type 0} {a b : A} → some a ≡ some b → a ≡ b
some_injective h = cc

-- The state in which the handshake of the client starts.
abbrev pub opened : Link → List (Result UsmpFrame) → Wire
opened link reads = record { link = link; reads = reads; failures = [] }

pub connect-ok :
    (p : Primitives) (link : Link) (reads : List (Result UsmpFrame)) (priv : Bytes) (now : ℕ)
    (c : Client) (info : SessionInfo)
    → (client_handshake p c.psk c.device_id priv (opened link reads)).0 ≡ ok info
    → connect p (ok link) reads priv now c ≡ (
      ok tt,
      record c {
        session = some (
            new_session
              (client_handshake p c.psk c.device_id priv (opened link reads)).1.link
              info
              now);
        has_transport = true;
        dropped = c.dropped ++ usmp_python.Client.replaced c.session;
      },
    )
unfolding connect
connect-ok p link reads priv now c info e =
    ap (λ r. connected now (r, (client_handshake p c.psk c.device_id priv (opened link reads)).1) c)
      e

-- A client connects to a server that knows its key, over TCP and a network that delivers, and sends
-- a message of at most 1808 bytes. If each side reads in the handshake what the other wrote, and the
-- server then reads what the client sent, both calls return without an error, and `recv` of the
-- server's session returns exactly the message and leaves what comes later.
pub connect-send-recv :
    (p : Primitives) (aead : IsAead p) (sized : IsSized p) (exchange : IsExchange p)
    (hkdf : IsHkdf p) (x : Setting p) (c2s s2c key : Bytes) (source : PskSource)
    (now failed_at t u : ℕ) (server : Wire) (link : Link) (reads : List (Result UsmpFrame))
    (c : Client) (s : Session) (info : SessionInfo) (bs : Bytes) (timeout : Option ℕ)
    (later_now : ℕ) (arrivals later : List Arrival)
    → IsFit p x c2s s2c
    → resolve_psk source x.device ≡ ok x.psk
    → check_lockout now key server.failures ≡ ok tt
    → server.link.outcomes ≡ []
    → link.outcomes ≡ []
    → server.link.is_reliable ≡ true
    → link.is_reliable ≡ true
    → server.reads ≡ decode_frame (hello_wire p x) false ∷ decode_frame (ack_wire p x) false ∷ []
    → reads ≡ decode_frame (challenge_wire p x) false ∷ decode_frame (reply_wire p x) false ∷ []
    → c.psk ≡ x.psk
    → c.device_id ≡ x.device
    → (connect p (ok link) reads x.priv_c t c).1.session ≡ some s
    → (server_handshake p source key x.drawn now failed_at server).0 ≡ ok info
    → IsBytes bs
    → length bs ≤ 1808
    → Read (sent_since s (send p bs s).1) arrivals
    → let (r, c') = connect p (ok link) reads x.priv_c t c in
      let served =
        new_session (server_handshake p source key x.drawn now failed_at server).1.link info u in
      (r ≡ ok tt)
      × ((ensure_connected (send p bs) c').0 ≡ ok tt)
      × (r' : Session) × (recv p timeout later_now (arrivals ++ later) served
          ≡ (ok (some bs), later, r'))
unfolding new_session ensure_connected
connect-send-recv p aead sized exchange hkdf x c2s s2c key source now failed_at t u server link
      reads c s info bs timeout later_now arrivals later fit known free os oc rels relc rs rc
      same_psk same_device held returned bytes fits read =
    let client = opened link reads in
    let (is, ic, served_ok, client_ok, peers, _, ready, _) =
      handshake-Peers p sized exchange hkdf x c2s s2c key source now failed_at t u server client fit
        known free os oc rels relc rs rc in
    let agreed =
      handshake_agrees p sized exchange hkdf x c2s s2c key source now failed_at server client fit
        known free os oc rs rc in
    let same : client_handshake p c.psk c.device_id x.priv_c client
        ≡ client_handshake p x.psk x.device x.priv_c client =
      ap₂ (λ k d. client_handshake p k d x.priv_c client) same_psk same_device in
    let made = connect-ok p link reads x.priv_c t c ic (ap (λ r. r.0) same ∙ client_ok) in
    let start : Session =
      new_session (client_handshake p x.psk x.device x.priv_c client).1.link ic t in
    let is_start : s ≡ start =
      some_injective
        (sym held ∙ ap (λ r. r.1.session) made ∙ ap (λ r. some (new_session r.1.link ic t)) same) in
    let fresh : ic.tx_seq ≡ 0 = ap (λ i. i.tx_seq) (ok_injective (sym client_ok ∙ agreed.1)) in
    let (sent, _, r', got, _) =
      send-recv p aead bs start
        (new_session (server_handshake p source key x.drawn now failed_at server).1.link is u)
        timeout later_now arrivals later ready peers bytes fits (omega (arith, fresh))
        (subst (λ y. Read (sent_since y (send p bs y).1) arrivals) is_start read) in
    (
      ap (λ r. r.0) made,
      ap (λ o. (with_session (send p bs) o (connect p (ok link) reads x.priv_c t c).1).0) held
          ∙ ap (λ y. (send p bs y).0) is_start
          ∙ sent,
      r',
      ap
            (λ i.
              recv p timeout later_now (arrivals ++ later) (
                new_session (server_handshake p source key x.drawn now failed_at server).1.link i
                  u))
            (ok_injective (sym returned ∙ served_ok))
          ∙ got,
    )
