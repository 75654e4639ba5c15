-- ===== src/Handshake/Proof.antt =====
-- What a handshake that returns has checked, whatever the network did.
use usmp_python.Prelude.{
  ℕ, ◌≡◌, refl, sym, ap, ◌∙◌, ◌⊎◌, List, [], ◌∷◌, ◌++◌, arith, take, eq_of_bytes_eq,
}
use usmp_python.Errors.{Result, ok, err}
use usmp_python.Types.{Bytes, PacketType, UsmpFrame, SessionInfo, session_info}
use usmp_python.Crypto.{Primitives, generate_keypair, derive_session_keys}
use usmp_python.Handshake.Psk.{PskSource, resolve_psk}
use usmp_python.Handshake.State.{Wire, H, ◌>>=◌, receive, transmit, lift, install, succeed}
use usmp_python.Handshake.Server.{
  Draws, compute_hmac, hello_device, hello_key, receive_hello, receive_ack, complete, answer_hello,
}
use usmp_python.Handshake.Runs.{with_keys}

-- Inversion of a bind that returned.
pub bind-eq-ok :
    {A B : Type 0} (r : Result A × Wire) (f : A → H B) (w w' : Wire) (b : B)
    → ◌>>=◌ (λ _. r) f w ≡ (ok b, w')
    → (a : A) × (v : Wire) × (r ≡ (ok a, v)) × (f a v ≡ (ok b, w'))
bind-eq-ok (ok a, v) f w w' b h = (a, v, refl, h)
bind-eq-ok (err e, v) f w w' b h = cc

-- What a verified HELLO_ACK was.
abbrev pub IsAck : Bytes → UsmpFrame → Type 0
IsAck expected f = (f.kind ≡ PacketType.hello_ack) × (f.size ≡ 32) × (take 32 f.payload ≡ expected)

receive_ack-eq-ok :
    (expected : Bytes) (w w' : Wire) (reads : List (Result UsmpFrame))
    → w.reads ≡ reads
    → receive_ack expected w ≡ (ok tt, w')
    → (f : UsmpFrame) × (w.reads ≡ ok f ∷ w'.reads) × IsAck expected f
unfolding receive_ack receive
receive_ack-eq-ok expected w w' [] e h = ground arith
receive_ack-eq-ok expected w w' (err x ∷ later) e h = ground arith
receive_ack-eq-ok expected w w' (ok f ∷ later) e h = (
  f,
  ground arith,
  (ground arith, ground arith, ground (arith, eq_of_bytes_eq expected (take 32 f.payload))),
)

-- What an accepted HELLO was.
abbrev pub IsHello : PskSource → UsmpFrame → Bytes → Type 0
IsHello source f psk =
    (f.kind ≡ PacketType.hello)
    × ((f.size ≡ 38) ⊎ (f.size ≡ 54))
    × (resolve_psk source (hello_device f) ≡ ok psk)

pub receive_hello-eq-ok :
    (source : PskSource) (w w' : Wire) (f : UsmpFrame) (psk : Bytes)
    (reads : List (Result UsmpFrame))
    → w.reads ≡ reads
    → receive_hello source w ≡ (ok (f, psk), w')
    → (w.reads ≡ ok f ∷ w'.reads) × IsHello source f psk
unfolding receive_hello receive
receive_hello-eq-ok source w w' f psk [] e h = ground arith
receive_hello-eq-ok source w w' f psk (err x ∷ later) e h = ground arith
receive_hello-eq-ok source w w' f psk (ok g ∷ later) e h = ground arith

-- Writing does not read.
transmit_reads :
    (t : PacketType) (payload : Bytes) (seq : ℕ) (w w' : Wire) (r : Result (Unit {0}))
    → transmit t payload seq w ≡ (r, w')
    → w'.reads ≡ w.reads
unfolding transmit
transmit_reads t payload seq w w' r h = sym (ap (λ x. x.1.reads) h)

module _ (p : Primitives) (source : PskSource) (key : Bytes) (drawn : Draws) where
  complete-eq-ok :
      (psk device pub_c pub_s : Bytes) (keys : Bytes × Bytes) (v w' : Wire) (info : SessionInfo)
      → complete p source key drawn psk device pub_c pub_s keys v ≡ (ok info, w')
      → (v.reads ≡ w'.reads) × (session_info device drawn.session_id keys.1 keys.0 ≡ ok info)
  unfolding complete install succeed
  complete-eq-ok psk device pub_c pub_s keys v w' info h =
      let (_, u, e, g) =
        bind-eq-ok
          (transmit PacketType.session_ok
            (drawn.session_id
              ++ compute_hmac p psk PacketType.session_ok drawn.nonce drawn.session_id pub_c pub_s)
            0 (with_keys v keys.1 keys.0))
          (λ _. succeed key >>= λ _. lift (session_info device drawn.session_id keys.1 keys.0))
          (with_keys v keys.1 keys.0) w' info h in
      (
        sym (transmit_reads PacketType.session_ok _ 0 (with_keys v keys.1 keys.0) u (ok tt) e)
            ∙ ap (λ x. x.1.reads) g,
        ap (λ x. x.0) g,
      )

  -- What a session owes to a HELLO and its key.
  abbrev pub Answers :
      UsmpFrame → Bytes → List (Result UsmpFrame) → List (Result UsmpFrame) → SessionInfo → Type 0
  Answers hello psk reads later info =
      let pub_s = p.public_bytes drawn.priv in
      let pub_c = hello_key hello in
      (keys : Bytes × Bytes) × (ack : UsmpFrame) × (reads ≡ ok ack ∷ later)
      × (derive_session_keys p drawn.priv pub_c drawn.nonce pub_c pub_s ≡ ok keys)
      × IsAck (compute_hmac p psk PacketType.hello_ack drawn.nonce (hello_device hello) pub_c pub_s)
          ack
      × (session_info (hello_device hello) drawn.session_id keys.1 keys.0 ≡ ok info)

  pub answer_hello-eq-ok :
      (hello : UsmpFrame) (psk : Bytes) (v w' : Wire) (info : SessionInfo)
      → answer_hello p source key drawn hello psk v ≡ (ok info, w')
      → Answers hello psk v.reads w'.reads info
  unfolding answer_hello generate_keypair
  answer_hello-eq-ok hello psk v w' info h =
      let pub_s : Bytes = p.public_bytes drawn.priv in
      let pub_c : Bytes = hello_key hello in
      let device : Bytes = hello_device hello in
      let mac : Bytes = compute_hmac p psk PacketType.hello_ack drawn.nonce device pub_c pub_s in
      let (_, v1, e1, h1) =
        bind-eq-ok (transmit PacketType.challenge (drawn.nonce ++ pub_s) 0 v)
          (λ _. lift (derive_session_keys p drawn.priv pub_c drawn.nonce pub_c pub_s) >>= λ keys.
            receive_ack mac >>= λ _. complete p source key drawn psk device pub_c pub_s keys)
          v w' info h in
      let (keys, v2, e2, h2) =
        bind-eq-ok (derive_session_keys p drawn.priv pub_c drawn.nonce pub_c pub_s, v1)
          (λ keys. receive_ack mac >>= λ _. complete p source key drawn psk device pub_c pub_s keys)
          v1 w' info h1 in
      let (_, v3, e3, h3) =
        bind-eq-ok (receive_ack mac v2)
          (λ _. complete p source key drawn psk device pub_c pub_s keys) v2 w' info h2 in
      let (ack, came, right) = receive_ack-eq-ok mac v2 v3 v2.reads refl e3 in
      let (left, made) = complete-eq-ok psk device pub_c pub_s keys v3 w' info h3 in
      (
        keys,
        ack,
        sym (transmit_reads PacketType.challenge (drawn.nonce ++ pub_s) 0 v v1 (ok tt) e1)
            ∙ ap (λ x. x.1.reads) e2
            ∙ came
            ∙ ap (λ later. ok ack ∷ later) left,
        ap (λ x. x.0) e2,
        right,
        made,
      )
