-- ===== src/Udp/Tests.antt =====
-- Examples for the UDP stream.
use usmp_python.Prelude.{
  ℕ, ◌+◌, ◌-◌, ◌*◌, ◌/◌, ◌^◌, ltb, All, List, ◌≤◌, ◌≡◌, refl, true, false, none, some, [], ◌∷◌,
  ◌++◌, ◌⊎◌, arith, length, replicate, bytes_eq, Any,
}
use usmp_python.Errors.{ok, err, os_error, incomplete_read_error}
use usmp_python.Types.{Bytes, PacketType}
use usmp_python.Crypto.Model.{sum_primitives, sum-IsSized}
use usmp_python.Frame.{decode_frame}
use usmp_python.Udp.Stream.{
  Stream, new_stream, set_session_keys, is_too_old, feed_packet, build_utack, utack_mac,
  confirm_authenticated, readexactly, close, feed_utack, feed_frame, max_read_buffer,
}
use usmp_python.Udp.Send.{write, drain, write_frame, attempts}
use usmp_python.Udp.Read.{read_frame}
use usmp_python.Udp.Queue.{Holds, feed_packet-Holds, read_frame-Holds}
use usmp_python.Udp.Reply.{Paired}
use usmp_python.Udp.Drain.{Answered, drain-Answered}
use usmp_python.Frame.RoundTrip.{wire}
use usmp_python.Udp.Network.{Fate, meet, HasRoom}
use usmp_python.Udp.Resend.{write_frame-meet}
use usmp_python.Udp.Timing.{
  Floats, IsOrdered, new_estimate, attempt_timeout, timing, drain_timing, drains, IsWithin,
  drains-IsWithin,
}
use usmp_python.Udp.Lost.{feed_packet-full, feed_packet-set_session_keys}

abbrev client : Stream
client = set_session_keys (replicate 32 1) (replicate 32 2) (new_stream false)

abbrev server : Stream
server = set_session_keys (replicate 32 2) (replicate 32 1) (new_stream true)

-- A DATA frame of three bytes, with a checksum that is not its own.
abbrev datagram : Bytes
datagram = 0xcd ∷ 0xab ∷ 2 ∷ 5 ∷ 7 ∷ 0 ∷ 0 ∷ 0 ∷ 3 ∷ 0 ∷ 0 ∷ 0 ∷ 10 ∷ 20 ∷ 30 ∷ []

abbrev written : Stream
written = (write sum_primitives datagram client).1

abbrev reply : Bytes
reply = build_utack sum_primitives 5 7 server

empty : length server.read_buffer ≤ max_read_buffer
unfolding set_session_keys new_stream
empty = omega arith

nothing : Holds [] server
unfolding set_session_keys new_stream
nothing = record { frames = tt; buffered = refl }

feed_packet-Holds_example :
    Holds [] (feed_packet sum_primitives datagram server)
    ⊎ (Holds (datagram ∷ []) (feed_packet sum_primitives datagram server)
        × ((feed_packet sum_primitives datagram server).sent ≡ server.sent ++ (reply ∷ [])))
feed_packet-Holds_example = feed_packet-Holds sum_primitives datagram server [] nothing

abbrev filled : Stream
filled = record server { read_buffer = datagram }

read_frame-Holds_example :
    (s' : Stream) × (read_frame true filled ≡ some (decode_frame datagram true, s')) × Holds [] s'
read_frame-Holds_example =
    read_frame-Holds true datagram [] filled (record { frames = (refl, tt); buffered = refl })

waiting : written.acked ≡ false
unfolding write set_session_keys new_stream
waiting = refl

heard : (feed_packet sum_primitives reply written).acked ≡ true
unfolding write set_session_keys new_stream build_utack utack_mac feed_packet feed_utack bytes_eq
heard = refl

data_kept : written.pending_send_data ≡ some datagram
unfolding write set_session_keys new_stream
data_kept = refl

seq_kept : written.pending_send_seq ≡ some 7
unfolding write set_session_keys new_stream
seq_kept = refl

drain-Answered_example :
    ((drain sum_primitives ([] ∷ (reply ∷ []) ∷ []) written).0 ≡ err os_error)
    ⊎ (((drain sum_primitives ([] ∷ (reply ∷ []) ∷ []) written).0 ≡ ok tt)
        × Any (Answered sum_primitives written) ([] ∷ (reply ∷ []) ∷ []))
drain-Answered_example =
    drain-Answered sum_primitives ([] ∷ (reply ∷ []) ∷ []) written datagram 7 data_kept seq_kept

paired : Paired 5 client server
unfolding set_session_keys new_stream
paired = record { key = replicate 32 1; checks = λ late. refl; signs = λ late. refl }

client_open : client.closed ≡ false
unfolding set_session_keys new_stream
client_open = refl

-- The stream of a server whose buffer has no room for another frame.
abbrev crammed : Stream
crammed = record (new_stream true) { read_buffer = replicate 4090 0 }

-- A HELLO of three bytes.
abbrev hello : Bytes
hello = 0xcd ∷ 0xab ∷ 2 ∷ 1 ∷ 0 ∷ 0 ∷ 0 ∷ 0 ∷ 3 ∷ 0 ∷ 0 ∷ 0 ∷ 10 ∷ 20 ∷ 30 ∷ []

feed_packet-full_example :
    ((feed_packet sum_primitives hello crammed).sent ≡ crammed.sent)
    × ((feed_packet sum_primitives hello (feed_packet sum_primitives hello crammed)).read_buffer
        ≡ crammed.read_buffer)
    × ((feed_packet sum_primitives hello (feed_packet sum_primitives hello crammed)).sent
        ≡ crammed.sent ++ (build_utack sum_primitives 1 0 crammed ∷ []))
unfolding new_stream
feed_packet-full_example =
    feed_packet-full sum_primitives hello crammed refl refl refl refl refl (omega arith)

-- Nothing but timeouts: five copies, then `OSError`.
gives_up :
    drain sum_primitives [] written
    ≡ (err os_error, record written { pending_send_data = none; sent = replicate 5 datagram })
unfolding drain attempts write set_session_keys new_stream
gives_up = refl

-- A forged acknowledgement, and one of another frame, are not taken.
forged : (feed_packet sum_primitives (0xac ∷ 0xac ∷ 5 ∷ 7 ∷ 0 ∷ 0 ∷ 0 ∷ []) written).acked ≡ false
unfolding write set_session_keys new_stream feed_packet feed_utack
forged = refl

other_frame :
    (feed_packet sum_primitives (build_utack sum_primitives 5 8 server) written).acked ≡ false
unfolding write set_session_keys new_stream build_utack utack_mac feed_packet feed_utack bytes_eq
other_frame = refl

-- Session frames far behind the last authenticated one are acknowledged and dropped.
abbrev ahead : Stream
ahead = confirm_authenticated 71 server

too_old : (feed_packet sum_primitives datagram ahead).read_buffer ≡ []
unfolding set_session_keys new_stream confirm_authenticated feed_packet feed_frame
too_old = refl

-- A read of an open stream waits; a read of a closed one fails.
waits_then_fails :
    (readexactly 1 client ≡ none)
    × (readexactly 1 (close client) ≡ some (err incomplete_read_error, close client))
unfolding set_session_keys new_stream readexactly close
waits_then_fails = (refl, refl)

-- A rekey after the number 71: the counters restart at 0, and the frame 7 is lost.
feed_packet-set_session_keys_example :
    let t = set_session_keys (replicate 32 3) (replicate 32 4) (confirm_authenticated 71 server) in
    feed_packet sum_primitives datagram t
    ≡ record t { sent = t.sent ++ (build_utack sum_primitives 5 7 t ∷ []) }
unfolding set_session_keys new_stream confirm_authenticated
feed_packet-set_session_keys_example =
    feed_packet-set_session_keys sum_primitives datagram (replicate 32 3) (replicate 32 4) 71
      (confirm_authenticated 71 server) refl refl refl refl refl (omega arith)

-- A frame of one byte whose first copy arrives without an answer that comes back, and whose second
-- is answered.
abbrev fates : List Fate
fates = Fate.unanswered ∷ Fate.answered ∷ []

abbrev framed : Bytes
framed = wire PacketType.data_packet (10 ∷ []) 7

server_open : server.closed ≡ false
unfolding set_session_keys new_stream
server_open = refl

nothing_seen : is_too_old 7 server.last_rx_seq ≡ false
unfolding set_session_keys new_stream
nothing_seen = refl

server_room : HasRoom framed fates server
unfolding set_session_keys new_stream
server_room = omega arith

write_frame-meet_example :
    let arrived = meet sum_primitives framed fates server in
    let (result, s') =
      write_frame sum_primitives PacketType.data_packet (10 ∷ []) 7 arrived.0 client in
    (result ≡ ok tt)
    × (arrived.1.read_buffer ≡ server.read_buffer ++ (framed ++ (framed ++ [])))
    × (s'.sent ≡ client.sent ++ (framed ∷ framed ∷ []))
write_frame-meet_example =
    write_frame-meet sum_primitives sum-IsSized PacketType.data_packet (10 ∷ []) 7 fates client
      server (omega arith) (omega arith) (omega arith) (omega arith) refl client_open server_open
      nothing_seen paired server_room

-- Floats in twentieths, for the examples.
abbrev twentieths : Floats
twentieths = record {
  Float = ℕ;
  add = ◌+◌;
  sub = ◌-◌;
  mul = λ x y. x * y / 20;
  abs = λ x. x;
  lt = ltb;
  twentieth = 1;
  tenth = 2;
  eighth = 3;
  fifth = 4;
  quarter = 5;
  half = 10;
  four = 80;
  five = 100;
  power_of_two = λ n. 20 * 2 ^ n;
}

twentieths-IsOrdered : IsOrdered twentieths
twentieths-IsOrdered = record {
  asym = λ x y h. ground arith;
  irrefl = λ x. ground arith;
  five-tenth = refl;
  five-twentieth = refl;
  half-tenth = refl;
  five-half = refl;
}

-- One call that is answered at once, and one that is never answered.
drains-IsWithin_example :
    let (timeouts, e) = drains twentieths ((some 2 ∷ []) ∷ [] ∷ []) (new_estimate twentieths) in
    All (IsWithin twentieths 1 100) timeouts
    × (length timeouts ≤ 10)
    × IsWithin twentieths 2 100 e.rto
drains-IsWithin_example = drains-IsWithin twentieths twentieths-IsOrdered ((some 2 ∷ []) ∷ [] ∷ [])

-- The timeouts double from one attempt to the next.
doubling : (drains twentieths ([] ∷ []) (new_estimate twentieths)).0 ≡ 10 ∷ 20 ∷ 40 ∷ 80 ∷ 100 ∷ []
unfolding drains drain_timing timing attempt_timeout
doubling = refl
