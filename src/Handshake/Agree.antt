-- ===== src/Handshake/Agree.antt =====
-- The handshake between two ends that share a key, over a network that delivers, and the sessions
-- that come of it.
use usmp_python.Prelude.{ℕ, ◌≡◌, refl, true, false, [], ◌∷◌, ◌++◌, append_assoc, length, arith}
use usmp_python.Errors.{ok}
use usmp_python.Types.{Bytes, SessionInfo}
use usmp_python.Frame.{decode_frame}
use usmp_python.Crypto.{Primitives}
use usmp_python.Crypto.Laws.{IsExchange, IsHkdf, IsSized}
use usmp_python.Handshake.Limiter.{check_lockout, forget}
use usmp_python.Handshake.Psk.{PskSource, resolve_psk}
use usmp_python.Handshake.State.{Wire}
use usmp_python.Handshake.Server.{serve, server_handshake}
use usmp_python.Handshake.Client.{client_handshake}
use usmp_python.Handshake.Setting.{
  Setting, hello_wire, challenge_wire, ack_wire, reply_wire, IsFit, info_with,
}
use usmp_python.Session.State.{new_session}
use usmp_python.Session.Packet.{IsReady}
use usmp_python.Session.Exchange.{Peers}
use usmp_python.Handshake.Honest.{serves, served, connects, keys_length}

serve_unlocked :
    (p : Primitives) (x : Setting p) (source : PskSource) (key : Bytes) (now failed_at : ℕ)
    (w w' : Wire) (info : SessionInfo)
    → check_lockout now key w.failures ≡ ok tt
    → serve p source key x.drawn w ≡ (ok info, w')
    → server_handshake p source key x.drawn now failed_at w ≡ (ok info, w')
unfolding server_handshake
serve_unlocked p x source key now failed_at w w' info free e = ground (arith, e)

-- A server and a client that share a key complete the handshake over a network that delivers: each
-- reads what the other has written, HELLO, CHALLENGE, HELLO_ACK and SESSION_OK, and both return the
-- same device and session, with the transmit key of the one the receive key of the other and all
-- counters at 0. Each has told its transport its keys, and the server forgets the failures of the
-- address.
pub handshake_agrees :
    (p : Primitives) (sized : IsSized p) (exchange : IsExchange p) (hkdf : IsHkdf p) (x : Setting p)
    (c2s s2c key : Bytes) (source : PskSource) (now failed_at : ℕ) (server client : Wire)
    → IsFit p x c2s s2c
    → resolve_psk source x.device ≡ ok x.psk
    → check_lockout now key server.failures ≡ ok tt
    → server.link.outcomes ≡ []
    → client.link.outcomes ≡ []
    → server.reads ≡ decode_frame (hello_wire p x) false ∷ decode_frame (ack_wire p x) false ∷ []
    → client.reads
      ≡ decode_frame (challenge_wire p x) false ∷ decode_frame (reply_wire p x) false ∷ []
    → let (rs, s') = server_handshake p source key x.drawn now failed_at server in
      let (rc, c') = client_handshake p x.psk x.device x.priv_c client in
      (rs ≡ ok (info_with p x s2c c2s))
      × (rc ≡ ok (info_with p x c2s s2c))
      × (s'.link.sent ≡ server.link.sent ++ (challenge_wire p x ∷ reply_wire p x ∷ []))
      × (c'.link.sent ≡ client.link.sent ++ (hello_wire p x ∷ ack_wire p x ∷ []))
      × (s'.link.keys ≡ server.link.keys ++ ((s2c, c2s) ∷ []))
      × (c'.link.keys ≡ client.link.keys ++ ((c2s, s2c) ∷ []))
      × (s'.failures ≡ forget key server.failures)
handshake_agrees p sized exchange hkdf x c2s s2c key source now failed_at server client fit known
      free os oc rs rc =
    rw
      (
        serve_unlocked p x source key now failed_at server
            (served p x sized exchange hkdf c2s s2c fit source key known server os)
            (info_with p x s2c c2s) free
            (serves p x sized exchange hkdf c2s s2c fit source key known server os rs),
        connects p x sized exchange hkdf c2s s2c fit client oc rc,
      )
      (
        refl,
        refl,
        append_assoc server.link.sent (challenge_wire p x ∷ []) (reply_wire p x ∷ []),
        append_assoc client.link.sent (hello_wire p x ∷ []) (ack_wire p x ∷ []),
        refl,
        refl,
        refl,
      )

-- After such a handshake over TCP the two sessions are each other's peers, and both can send.
pub handshake-Peers :
    (p : Primitives) (sized : IsSized p) (exchange : IsExchange p) (hkdf : IsHkdf p) (x : Setting p)
    (c2s s2c key : Bytes) (source : PskSource) (now failed_at t u : ℕ) (server client : Wire)
    → IsFit p x c2s s2c
    → resolve_psk source x.device ≡ ok x.psk
    → check_lockout now key server.failures ≡ ok tt
    → server.link.outcomes ≡ []
    → client.link.outcomes ≡ []
    → server.link.is_reliable ≡ true
    → client.link.is_reliable ≡ true
    → server.reads ≡ decode_frame (hello_wire p x) false ∷ decode_frame (ack_wire p x) false ∷ []
    → client.reads
      ≡ decode_frame (challenge_wire p x) false ∷ decode_frame (reply_wire p x) false ∷ []
    → let (rs, s') = server_handshake p source key x.drawn now failed_at server in
      let (rc, c') = client_handshake p x.psk x.device x.priv_c client in
      (is : SessionInfo) × (ic : SessionInfo) × (rs ≡ ok is)
      × (rc ≡ ok ic)
      × Peers (new_session c'.link ic t) (new_session s'.link is u)
      × Peers (new_session s'.link is u) (new_session c'.link ic t)
      × IsReady (new_session c'.link ic t)
      × IsReady (new_session s'.link is u)
unfolding new_session
handshake-Peers p sized exchange hkdf x c2s s2c key source now failed_at t u server client fit known
      free os oc rels relc rs rc =
    rw
      (
        serve_unlocked p x source key now failed_at server
            (served p x sized exchange hkdf c2s s2c fit source key known server os)
            (info_with p x s2c c2s) free
            (serves p x sized exchange hkdf c2s s2c fit source key known server os rs),
        connects p x sized exchange hkdf c2s s2c fit client oc rc,
      )
      (
        info_with p x s2c c2s,
        info_with p x c2s s2c,
        refl,
        refl,
        record {
          reliable = rels;
          same_key = refl;
          same_id = refl;
          same_suite = refl;
          same_seq = refl;
        },
        record {
          reliable = relc;
          same_key = refl;
          same_id = refl;
          same_suite = refl;
          same_seq = refl;
        },
        record {
          key_length = sizes.0;
          id_length = fit.id_length;
          id_bytes = fit.id_is_bytes;
          delivers = refl;
        },
        record {
          key_length = sizes.1;
          id_length = fit.id_length;
          id_bytes = fit.id_is_bytes;
          delivers = refl;
        },
      )
  where
    sizes : (length c2s ≡ 32) × (length s2c ≡ 32)
    sizes = keys_length p x sized exchange hkdf c2s s2c fit
