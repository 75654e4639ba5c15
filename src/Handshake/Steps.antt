-- ===== src/Handshake/Steps.antt =====
-- The parts of a handshake on frames that arrive as they were sent.
use usmp_python.Prelude.{
  ℕ, ◌≤◌, ◌<◌, ◌≡◌, ap, ◌∙◌, ◌⊎◌, List, [], ◌∷◌, ◌++◌, arith, length, take, take-append,
  drop-append, take-all, bytes_eq_refl, length-append,
}
use usmp_python.Errors.{Result, ok}
use usmp_python.Types.{Bytes, PacketType, UsmpFrame}
use usmp_python.Bytes.{IsBytes}
use usmp_python.Frame.RoundTrip.{wire, frame_of}
use usmp_python.Crypto.{Primitives}
use usmp_python.Transport.Write.{with_sent, write_frame-wire}
use usmp_python.Handshake.Psk.{PskSource, resolve_psk}
use usmp_python.Handshake.State.{Wire, receive, transmit}
use usmp_python.Handshake.Server.{hello_device, hello_key, receive_hello, receive_ack}
use usmp_python.Handshake.Client.{receive_challenge, receive_ok}

-- The next frame has been read.
abbrev pub after_read : Wire → List (Result UsmpFrame) → Wire
after_read w later = record w { reads = later }

pub receive-frame :
    (w : Wire) (f : UsmpFrame) (later : List (Result UsmpFrame))
    → w.reads ≡ ok f ∷ later
    → receive w ≡ (ok f, after_read w later)
unfolding receive
receive-frame w f later e = ground arith

pub transmit-wire :
    (w : Wire) (t : PacketType) (payload : Bytes) (seq : ℕ)
    → w.link.outcomes ≡ []
    → IsBytes payload
    → length payload ≤ 480
    → seq < 4294967296
    → transmit t payload seq w ≡ (ok tt, record w { link = with_sent w.link (wire t payload seq) })
unfolding transmit
transmit-wire w t payload seq o hb hp hs =
    ground (arith, write_frame-wire w.link t payload seq o hb hp hs)

-- HELLO: the device, the public key, and over UDP the cookie.
module _ (source : PskSource) (device pub_c cookie psk : Bytes) (seq : ℕ) (six : length device ≡ 6)
    (key : length pub_c ≡ 32) (size : (length cookie ≡ 0) ⊎ (length cookie ≡ 16)) where
  abbrev pub hello : UsmpFrame
  hello = frame_of PacketType.hello (device ++ (pub_c ++ cookie)) seq

  pub hello_device-hello : hello_device hello ≡ device
  hello_device-hello = take-append 6 device (pub_c ++ cookie) six

  pub hello_key-hello : hello_key hello ≡ pub_c
  hello_key-hello =
      ap (take 32) (drop-append 6 device (pub_c ++ cookie) six) ∙ take-append 32 pub_c cookie key

  hello_size :
      (length (device ++ (pub_c ++ cookie)) ≡ 38) ⊎ (length (device ++ (pub_c ++ cookie)) ≡ 54)
  hello_size = ground (arith, length-append device (pub_c ++ cookie), length-append pub_c cookie)

  pub receive_hello-hello :
      (w : Wire) (later : List (Result UsmpFrame))
      → w.reads ≡ ok hello ∷ later
      → resolve_psk source device ≡ ok psk
      → receive_hello source w ≡ (ok (hello, psk), after_read w later)
  unfolding receive_hello
  receive_hello-hello w later e r =
      ground (arith, receive-frame w hello later e, hello_device-hello, hello_size, r)

pub receive_ack-ack :
    (w : Wire) (later : List (Result UsmpFrame)) (mac : Bytes) (seq : ℕ)
    → length mac ≡ 32
    → w.reads ≡ ok (frame_of PacketType.hello_ack mac seq) ∷ later
    → receive_ack mac w ≡ (ok tt, after_read w later)
unfolding receive_ack
receive_ack-ack w later mac seq size e = ground (
  arith,
  receive-frame w (frame_of PacketType.hello_ack mac seq) later e,
  take-all 32 mac,
  bytes_eq_refl mac,
)

pub receive_challenge-challenge :
    (p : Primitives) (device priv : Bytes) (w : Wire) (later : List (Result UsmpFrame))
    (payload : Bytes) (seq : ℕ)
    → length payload ≡ 64
    → w.reads ≡ ok (frame_of PacketType.challenge payload seq) ∷ later
    → receive_challenge p device priv w
      ≡ (ok (frame_of PacketType.challenge payload seq), after_read w later)
unfolding receive_challenge
receive_challenge-challenge p device priv w later payload seq size e =
    ground (arith, receive-frame w (frame_of PacketType.challenge payload seq) later e)

pub receive_ok-session_ok :
    (w : Wire) (later : List (Result UsmpFrame)) (payload : Bytes) (seq : ℕ)
    → length payload ≡ 48
    → w.reads ≡ ok (frame_of PacketType.session_ok payload seq) ∷ later
    → receive_ok w ≡ (ok (frame_of PacketType.session_ok payload seq), after_read w later)
unfolding receive_ok
receive_ok-session_ok w later payload seq size e =
    ground (arith, receive-frame w (frame_of PacketType.session_ok payload seq) later e)
