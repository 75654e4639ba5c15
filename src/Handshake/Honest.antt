-- ===== src/Handshake/Honest.antt =====
-- Each end on the messages of the other.
use usmp_python.Prelude.{
  ℕ, ◌≤◌, ◌<◌, ◌≡◌, refl, sym, ap, ap₂, ◌∙◌, inl, false, List, [], ◌∷◌, ◌++◌, arith, length, take,
  drop, take-append, drop-append, take-all, append-nil, All-append, length-append, subst,
}
use usmp_python.Errors.{Result, ok}
use usmp_python.Types.{Bytes, PacketType, packet_code, UsmpFrame, session_info}
use usmp_python.Bytes.{IsBytes}
use usmp_python.Frame.{decode_frame}
use usmp_python.Frame.RoundTrip.{wire, frame_of, decode_frame-wire}
use usmp_python.Crypto.{Primitives, generate_keypair, derive_session_keys}
use usmp_python.Crypto.Laws.{IsExchange, IsHkdf, IsSized}
use usmp_python.Crypto.Keys.{derive_session_keys-agree, derive_session_keys-length}
use usmp_python.Transport.Write.{with_sent}
use usmp_python.Handshake.Limiter.{forget}
use usmp_python.Handshake.Psk.{PskSource, resolve_psk}
use usmp_python.Handshake.State.{Wire, transmit}
use usmp_python.Handshake.Server.{compute_hmac, hello_device, hello_key, receive_hello, serve}
use usmp_python.Handshake.Client.{client_handshake}
use usmp_python.Handshake.Runs.{with_keys, serve-ok, client-ok}
use usmp_python.Handshake.Steps.{
  after_read, transmit-wire, receive_hello-hello, receive_ack-ack, receive_challenge-challenge,
  receive_ok-session_ok,
}
use usmp_python.Handshake.Setting.{
  Setting, pub_c, pub_s, challenge, mac_c, reply, hello_wire, challenge_wire, ack_wire, reply_wire,
  IsFit, info_with,
}

module _ (p : Primitives) (x : Setting p) where
  module _ (sized : IsSized p) (exchange : IsExchange p) (hkdf : IsHkdf p) (c2s s2c : Bytes)
      (fit : IsFit p x c2s s2c) where
    pub keys_length : (length c2s ≡ 32) × (length s2c ≡ 32)
    keys_length =
        derive_session_keys-length p hkdf x.priv_c (pub_s p x) x.drawn.nonce (pub_c p x) (pub_s p x)
          c2s s2c fit.derives

    info_made :
        (tx rx : Bytes)
        → length tx ≡ 32
        → length rx ≡ 32
        → session_info x.device x.drawn.session_id tx rx ≡ ok (info_with p x tx rx)
    unfolding session_info
    info_made tx rx a b = ground arith

    server_derives :
        derive_session_keys p x.drawn.priv (pub_c p x) x.drawn.nonce (pub_c p x) (pub_s p x)
        ≡ ok (c2s, s2c)
    unfolding generate_keypair
    server_derives =
        sym (derive_session_keys-agree p exchange x.priv_c x.drawn.priv x.drawn.nonce) ∙ fit.derives

    length-challenge : length (challenge p x) ≡ 64
    length-challenge =
        omega (arith, length-append x.drawn.nonce (pub_s p x), sized.public_length x.drawn.priv)

    length-reply : length (reply p x) ≡ 48
    length-reply = omega (
      arith,
      length-append x.drawn.session_id (
          compute_hmac p x.psk PacketType.session_ok x.drawn.nonce x.drawn.session_id (pub_c p x)
            (pub_s p x)),
      sized.mac_length x.psk (
          0xcd
          ∷ 0xab
          ∷ 2
          ∷ packet_code PacketType.session_ok
          ∷ (x.drawn.nonce ++ (x.drawn.session_id ++ ((pub_c p x) ++ (pub_s p x))))),
    )

    reads_as :
        (t : PacketType) (payload : Bytes) (seq : ℕ)
        → IsBytes payload
        → length payload ≤ 480
        → seq < 4294967296
        → decode_frame (wire t payload seq) false ≡ ok (frame_of t payload seq)
    reads_as t payload seq hb hp hs =
        ap (λ bs. decode_frame bs false) (sym (append-nil (wire t payload seq)))
        ∙ decode_frame-wire t payload [] seq false hb hp hs

    length-mac_c : length (mac_c p x) ≡ 32
    length-mac_c = sized.mac_length x.psk _

    challenge-IsBytes : IsBytes (challenge p x)
    challenge-IsBytes =
        All-append _ x.drawn.nonce (pub_s p x) fit.nonce_is_bytes
          (sized.public_is_bytes x.drawn.priv)

    reply-IsBytes : IsBytes (reply p x)
    reply-IsBytes = All-append _ x.drawn.session_id _ fit.id_is_bytes (sized.mac_is_bytes x.psk _)

    hello-IsBytes : IsBytes (x.device ++ (pub_c p x))
    hello-IsBytes =
        All-append _ x.device (pub_c p x) fit.device_is_bytes (sized.public_is_bytes x.priv_c)

    hello_length : length (x.device ++ (pub_c p x)) ≡ 38
    hello_length =
        omega (
          arith,
          length-append x.device (pub_c p x),
          fit.device_length,
          sized.public_length x.priv_c,
        )

    -- The frames that carry the messages.
    abbrev hello_frame : UsmpFrame
    hello_frame = frame_of PacketType.hello (x.device ++ (pub_c p x)) 0

    abbrev ack_frame : UsmpFrame
    ack_frame = frame_of PacketType.hello_ack (mac_c p x) 2

    abbrev challenge_frame : UsmpFrame
    challenge_frame = frame_of PacketType.challenge (challenge p x) 0

    abbrev reply_frame : UsmpFrame
    reply_frame = frame_of PacketType.session_ok (reply p x) 0

    hello_read :
        (source : PskSource) (w : Wire) (later : List (Result UsmpFrame))
        → resolve_psk source x.device ≡ ok x.psk
        → w.reads ≡ ok hello_frame ∷ later
        → receive_hello source w ≡ (ok (hello_frame, x.psk), after_read w later)
    hello_read source w later known =
        subst
          (λ t.
            w.reads ≡ ok (frame_of PacketType.hello (x.device ++ t) 0) ∷ later
            → receive_hello source w
              ≡ (ok (frame_of PacketType.hello (x.device ++ t) 0, x.psk), after_read w later))
          (append-nil (pub_c p x))
          (λ e.
            receive_hello-hello source x.device (pub_c p x) [] x.psk 0 fit.device_length
              (sized.public_length x.priv_c) (inl refl) w later e known)

    device_read : hello_device hello_frame ≡ x.device
    device_read = take-append 6 x.device (pub_c p x) fit.device_length

    key_read : hello_key hello_frame ≡ (pub_c p x)
    key_read =
        ap (take 32) (drop-append 6 x.device (pub_c p x) fit.device_length)
        ∙ take-all 32 (pub_c p x) (omega (arith, sized.public_length x.priv_c))

    module _ (source : PskSource) (key : Bytes) (known : resolve_psk source x.device ≡ ok x.psk)
        (w : Wire) (open_link : w.link.outcomes ≡ []) where
      abbrev challenged : Wire
      challenged = record w {
        link = with_sent w.link (challenge_wire p x);
        reads = ok ack_frame ∷ [];
      }

      abbrev keyed : Wire
      keyed = with_keys (after_read challenged []) s2c c2s

      abbrev replied : Wire
      replied = record keyed { link = with_sent keyed.link (reply_wire p x) }

      abbrev pub served : Wire
      served = record replied { failures = forget key w.failures }

      pub serves :
          w.reads ≡ decode_frame (hello_wire p x) false ∷ decode_frame (ack_wire p x) false ∷ []
          → serve p source key x.drawn w ≡ (ok (info_with p x s2c c2s), served)
      serves arrived =
          serve-ok p source key x.drawn w (after_read w (ok ack_frame ∷ [])) challenged
            (after_read challenged []) replied hello_frame x.psk x.device (pub_c p x) c2s s2c
            (info_with p x s2c c2s)
            (hello_read source w (ok ack_frame ∷ []) known (
              arrived
              ∙ ap₂ (λ a b. a ∷ b ∷ [])
                  (reads_as PacketType.hello (x.device ++ (pub_c p x)) 0 hello-IsBytes
                    (omega (arith, hello_length)) (omega arith))
                  (reads_as PacketType.hello_ack (mac_c p x) 2 (sized.mac_is_bytes x.psk _)
                    (omega (arith, length-mac_c)) (omega arith))))
            device_read key_read
            (transmit-wire (after_read w (ok ack_frame ∷ [])) PacketType.challenge (challenge p x) 0
              open_link challenge-IsBytes (omega (arith, length-challenge)) (omega arith))
            server_derives (receive_ack-ack challenged [] (mac_c p x) 2 length-mac_c refl)
            (transmit-wire keyed PacketType.session_ok (reply p x) 0 refl reply-IsBytes
              (omega (arith, length-reply)) (omega arith))
            (info_made s2c c2s keys_length.1 keys_length.0)

    nonce_read : take 32 (challenge p x) ≡ x.drawn.nonce
    nonce_read = take-append 32 x.drawn.nonce (pub_s p x) fit.nonce_length

    server_key_read : take 32 (drop 32 (challenge p x)) ≡ (pub_s p x)
    server_key_read =
        ap (take 32) (drop-append 32 x.drawn.nonce (pub_s p x) fit.nonce_length)
        ∙ take-all 32 (pub_s p x) (omega (arith, sized.public_length x.drawn.priv))

    abbrev mac_s : Bytes
    mac_s =
        compute_hmac p x.psk PacketType.session_ok x.drawn.nonce x.drawn.session_id (pub_c p x)
          (pub_s p x)

    id_read : take 16 (reply p x) ≡ x.drawn.session_id
    id_read = take-append 16 x.drawn.session_id mac_s fit.id_length

    mac_read : take 32 (drop 16 (reply p x)) ≡ mac_s
    mac_read =
        ap (take 32) (drop-append 16 x.drawn.session_id mac_s fit.id_length)
        ∙ take-all 32 mac_s (omega (arith, sized.mac_length x.psk _))

    module _ (w : Wire) (open_link : w.link.outcomes ≡ []) where
      abbrev greeted : Wire
      greeted = record w {
        link = with_sent w.link (hello_wire p x);
        reads = ok challenge_frame ∷ ok reply_frame ∷ [];
      }

      abbrev proved : Wire
      proved = record greeted {
        link = with_sent greeted.link (ack_wire p x);
        reads = ok reply_frame ∷ [];
      }

      abbrev pub connected : Wire
      connected = with_keys (after_read proved []) c2s s2c

      pub connects :
          w.reads
            ≡ decode_frame (challenge_wire p x) false ∷ decode_frame (reply_wire p x) false ∷ []
          → client_handshake p x.psk x.device x.priv_c w ≡ (ok (info_with p x c2s s2c), connected)
      connects arrived =
          client-ok p x.psk x.device x.priv_c w greeted (after_read greeted (ok reply_frame ∷ []))
            proved (after_read proved []) challenge_frame reply_frame x.drawn.nonce (pub_s p x)
            x.drawn.session_id mac_s c2s s2c (info_with p x c2s s2c) fit.psk_length
            (subst
              (λ r.
                transmit PacketType.hello (x.device ++ (pub_c p x)) 0 w
                ≡ (ok tt, record w { link = with_sent w.link (hello_wire p x); reads = r }))
              (arrived
                ∙ ap₂ (λ a b. a ∷ b ∷ [])
                    (reads_as PacketType.challenge (challenge p x) 0 challenge-IsBytes
                      (omega (arith, length-challenge)) (omega arith))
                    (reads_as PacketType.session_ok (reply p x) 0 reply-IsBytes
                      (omega (arith, length-reply)) (omega arith)))
              (transmit-wire w PacketType.hello (x.device ++ (pub_c p x)) 0 open_link hello-IsBytes
                (omega (arith, hello_length)) (omega arith)))
            (receive_challenge-challenge p x.device x.priv_c greeted (ok reply_frame ∷ [])
              (challenge p x) 0 length-challenge refl)
            nonce_read server_key_read fit.derives
            (transmit-wire (after_read greeted (ok reply_frame ∷ [])) PacketType.hello_ack
              (mac_c p x) 2 refl (sized.mac_is_bytes x.psk _) (omega (arith, length-mac_c))
              (omega arith))
            (receive_ok-session_ok proved [] (reply p x) 0 length-reply refl) id_read mac_read refl
            (info_made c2s s2c keys_length.0 keys_length.1)
