-- ===== src/Transport/Tests.antt =====
-- Examples for the transports.
use usmp_python.Prelude.{◌≡◌, refl, true, false, [], ◌∷◌, ◌++◌, arith, bytes_eq}
use usmp_python.Prelude.Texts.{codes}
use usmp_python.Errors.{ok, err, connection_error, value_error}
use usmp_python.Types.{PacketType}
use usmp_python.Frame.RoundTrip.{frame_of}
use usmp_python.Server.Dict.{get, put}
use usmp_python.Transport.{
  Link, Outcome, write_frame, set_session_keys, confirm_authenticated, close,
}
use usmp_python.Transport.Registry.{
  ListenerClass, get_transport_class, get_listener_class, core_protocols, register_transport,
  to_lower,
}
use usmp_python.Transport.Tcp.{
  TcpTransport, Shows, tcp_write_frame, tcp_set_session_keys, tcp_confirm_authenticated, tcp_close,
  tcp-Shows,
}
use usmp_python.Transport.Carry.{
  Item, Fits, write_frames, read_frames, joined, read_frames-write_frames,
}

-- The first drain raises.
abbrev broken : TcpTransport
broken = record { reader = []; written = []; drains = err connection_error ∷ []; closed = false }

abbrev seen_as : Link
seen_as = record {
  is_reliable = true;
  outcomes = Outcome.sent_and_raised connection_error ∷ [];
  sent = [];
  keys = [];
  confirmed = [];
  closed = false;
}

broken-Shows : Shows broken seen_as
broken-Shows = record {
  reliable = refl;
  same_outcomes = refl;
  same_sent = refl;
  same_closed = refl;
}

tcp-Shows_example :
    ((tcp_write_frame PacketType.ping (1 ∷ []) 0 broken).0
      ≡ (write_frame seen_as PacketType.ping (1 ∷ []) 0).0)
    × Shows
        (tcp_write_frame PacketType.ping (1 ∷ []) 0 broken).1
        (write_frame seen_as PacketType.ping (1 ∷ []) 0).1
    × Shows (tcp_set_session_keys [] [] broken) (set_session_keys seen_as [] [])
    × Shows (tcp_confirm_authenticated 0 broken) (confirm_authenticated seen_as 0)
    × Shows (tcp_close broken) (close seen_as)
tcp-Shows_example = tcp-Shows broken seen_as PacketType.ping (1 ∷ []) [] [] 0 broken-Shows

abbrev quiet : TcpTransport
quiet = record { reader = []; written = []; drains = []; closed = false }

abbrev first : Item
first = record { kind = PacketType.data_frag; payload = 1 ∷ 2 ∷ []; seq = 5 }

abbrev second : Item
second = record { kind = PacketType.data_packet; payload = 3 ∷ []; seq = 6 }

first-Fits : Fits first
first-Fits = record { bytes = omega arith; short = omega arith; narrow = omega arith }

second-Fits : Fits second
second-Fits = record { bytes = omega arith; short = omega arith; narrow = omega arith }

abbrev other_end : TcpTransport
other_end = record quiet {
  reader = joined (write_frames (first ∷ second ∷ []) quiet).1.written ++ (9 ∷ []);
}

read_frames-write_frames_example :
    ((write_frames (first ∷ second ∷ []) quiet).0 ≡ ok tt)
    × (read_frames 2 true other_end ≡ (
      ok (frame_of PacketType.data_frag (1 ∷ 2 ∷ []) 5)
          ∷ ok (frame_of PacketType.data_packet (3 ∷ []) 6)
          ∷ [],
      record other_end { reader = 9 ∷ [] },
    ))
read_frames-write_frames_example =
    read_frames-write_frames (first ∷ second ∷ []) (9 ∷ []) true quiet other_end
      (first-Fits, (second-Fits, tt)) refl refl refl

-- Names are found in any case, and no others are.
upper_found : get_listener_class (codes "UDP") core_protocols ≡ ok ListenerClass.udp_listener
unfolding get_listener_class core_protocols register_transport to_lower get put bytes_eq
upper_found = refl

unknown : get_transport_class (codes "quic") core_protocols ≡ err value_error
unfolding get_transport_class core_protocols register_transport to_lower get put bytes_eq
unknown = refl
