-- ===== src/Server/Listener.antt =====
-- `UDPListener._handle_udp_datagram` of src/usmp/transport/udp.py: the routing of datagrams to the
-- streams, the cookies, and the limits on handshakes.
use usmp_python.Prelude.{
  ℕ, suc, ◌+◌, ◌-◌, ◌*◌, Bool, true, false, ◌||◌, Option, none, some, [], ◌∷◌, ◌++◌, ltb, leb, ◌==◌,
  if◌then◌else◌, bytes_eq, length, take, drop,
}
use usmp_python.Prelude.Texts.{digits}
use usmp_python.Errors.{Result, ok, err}
use usmp_python.Types.{Bytes, PacketType, usmp_version}
use usmp_python.Crypto.{Primitives}
use usmp_python.Frame.{encode_frame}
use usmp_python.Udp.Stream.{new_stream, feed_packet, is_utack, byte_at, word_at, utack_header}
use usmp_python.Handshake.Limiter.{Entry, Failures, lookup}
use usmp_python.Server.Dict.{get, put}
use usmp_python.Server.State.{Addr, addr_eq, Server, count_of, update}
use usmp_python.Server.Bucket.{allow_udp_cookie}

-- The type in the first bytes, if there is one: what decides the routing.
abbrev pub datagram_type : Bytes → Option ℕ
datagram_type bs =
    if is_utack bs
    then some (byte_at bs 2)
    else if leb 12 (length bs)
    then some (byte_at bs 3)
    else none

-- `f"{addr[0]}:{addr[1]}:{time_bucket}".encode()`.
abbrev pub cookie_message : Addr → ℕ → Bytes
cookie_message a bucket =
    a.host ++ (58 ∷ digits (suc a.port) a.port ++ (58 ∷ digits (suc bucket) bucket))

-- The clocks that the call reads: `time.time() // 30`, and `time.monotonic()` in milliseconds.
pub record Clock : Type 0 where
  pub bucket : ℕ
  pub now : ℕ

unfoldable pub feed_stream : Primitives → Bytes → ℕ → Server → Server
feed_stream p bs h s = record s { streams = update h (feed_packet p bs) s.streams }

-- `if stream is not None: stream.feed_packet(data)`.
abbrev pub feed_found : Primitives → Bytes → Option ℕ → Server → Server
feed_found p bs none s = s
feed_found p bs (some h) s = feed_stream p bs h s

abbrev pub or_else : Option ℕ → Option ℕ → Option ℕ
or_else (some h) o = some h
or_else none o = o

abbrev pub locked_out : ℕ → Option Entry → Bool
locked_out now none = false
locked_out now (some e) = ltb now e.lockout_until

abbrev pub send_to : Addr → Bytes → Server → Server
send_to addr bs s = record s { sent = s.sent ++ ((bs, addr) ∷ []) }

module _ (p : Primitives) (c : Clock) (failures : Failures) (bs : Bytes) (addr : Addr) where
  unfoldable pub cookie_at : ℕ → Bytes → Bytes
  cookie_at bucket secret = take 16 (p.hmac_sha256 secret (cookie_message addr bucket))

  abbrev pub send_retry : Result Bytes → Server → Server
  send_retry (err e) s = s
  send_retry (ok retry_packet) s = send_to addr retry_packet s

  -- A HELLO without a cookie is answered with one, and leaves no state but a token less.
  abbrev pub issue_cookie : Bool × Server → Server
  issue_cookie (false, s) = s
  issue_cookie (true, s) =
      send_retry
        (encode_frame PacketType.hello_retry (cookie_at c.bucket s.cookie_secret) 0 usmp_version)
        (send_to addr (utack_header (byte_at bs 3) (word_at bs 4)) s)

  abbrev pub has_cookie : Bytes → Bool
  has_cookie secret =
      bytes_eq (take 16 (drop 50 bs)) (cookie_at c.bucket secret)
      || bytes_eq (take 16 (drop 50 bs)) (cookie_at (c.bucket - 1) secret)

  -- A stream for the address, the datagram, and the task that serves the stream.
  unfoldable pub start_handshake : Server → Server
  start_handshake s =
      let h = length s.streams in
      let t = record s {
        udp_in_progress_handshakes =
            put bytes_eq addr.host (count_of addr.host s.udp_in_progress_handshakes + 1)
              s.udp_in_progress_handshakes;
        udp_handshakes = put addr_eq addr h s.udp_handshakes;
        streams = s.streams ++ (new_stream true ∷ []);
      } in
      record (feed_stream p bs h t) { tasks = s.tasks ++ (record { addr = addr; stream = h } ∷ []) }

  -- The limits, once the cookie is right.
  unfoldable pub limit_handshakes : Server → Server
  limit_handshakes s =
      if locked_out c.now (lookup addr.host failures)
      then s
      else if leb 3 (count_of addr.host s.udp_in_progress_handshakes)
      then s
      else if leb (s.max_connections * 2) (length s.udp_handshakes)
      then s
      else start_handshake s

  unfoldable pub first_hello : Server → Server
  first_hello s =
      if length bs == 50
      then issue_cookie (allow_udp_cookie c.now addr.host s)
      else if length bs == 66
      then (if has_cookie s.cookie_secret then limit_handshakes s else s)
      else s

  abbrev pub route_handshake : ℕ → Option ℕ → Server → Server
  route_handshake type_ (some h) s = feed_stream p bs h s
  route_handshake type_ none s = if type_ == 1 then first_hello s else s

  abbrev pub route_data : Server → Server
  route_data s =
      feed_found p bs
        (or_else (get addr_eq addr s.udp_handshakes) (get addr_eq addr s.udp_sessions)) s

  abbrev pub route : Option ℕ → Server → Server
  route none s = route_data s
  route (some type_) s =
      if ltb type_ 5
      then route_handshake type_ (get addr_eq addr s.udp_handshakes) s
      else route_data s

  unfoldable pub handle_udp_datagram : Server → Server
  handle_udp_datagram s = route (datagram_type bs) s
