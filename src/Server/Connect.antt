-- ===== src/Server/Connect.antt =====
-- `_on_transport_connect` of src/usmp/_server.py, in its stages: the admission of a TCP connection,
-- what follows the handshake of a UDP one, and the `finally` clause.
use usmp_python.Prelude.{
  ℕ, ◌+◌, Bool, true, false, Option, none, some, [], ◌∷◌, leb, ◌==◌, if◌then◌else◌, bytes_eq,
  length,
}
use usmp_python.Types.{Bytes}
use usmp_python.Server.Dict.{Dict, get, put, pop}
use usmp_python.Server.State.{
  Addr, addr_eq, Connection, Server, count_of, total, lower, close_stream,
}

-- Whether the connection is admitted. One that is not is closed at once, and is not finished.
unfoldable pub admit_tcp : Bytes → Server → Bool × Server
admit_tcp ip s =
    if leb s.max_connections (total s.tcp_connections)
    then (false, s)
    else if leb s.max_connections_per_ip (count_of ip s.tcp_connections)
    then (false, s)
    else (
      true,
      record s {
        tcp_connections = put bytes_eq ip (count_of ip s.tcp_connections + 1) s.tcp_connections;
      },
    )

unfoldable pub finish_tcp : Bytes → Server → Server
finish_tcp ip s = record s { tcp_connections = lower ip s.tcp_connections }

-- `sum(1 for a in self._udp_sessions if a[0] == ip)`.
unfoldable pub sessions_of : Bytes → Dict Addr ℕ → ℕ
sessions_of ip [] = 0
sessions_of ip ((a, h) ∷ d) =
    let rest = sessions_of ip d in if bytes_eq a.host ip then rest + 1 else rest

-- The handshake of a UDP connection has succeeded: whether it becomes a session.
unfoldable pub establish_udp : Connection → Server → Bool × Server
establish_udp c s =
    let t = record s {
      udp_in_progress_handshakes = lower c.addr.host s.udp_in_progress_handshakes;
    } in
    if leb s.max_connections (length s.udp_sessions)
    then (false, close_stream (some c.stream) t)
    else if leb s.max_connections_per_ip (sessions_of c.addr.host s.udp_sessions)
    then (false, close_stream (some c.stream) t)
    else (
      true,
      record (close_stream (get addr_eq c.addr s.udp_sessions) t) {
        udp_sessions = put addr_eq c.addr c.stream s.udp_sessions;
        udp_handshakes = pop addr_eq c.addr s.udp_handshakes;
      },
    )

-- `if d.get(addr) is transport: d.pop(addr, None)`.
abbrev pub pop_held : Option ℕ → Connection → Dict Addr ℕ → Dict Addr ℕ
pop_held none c d = d
pop_held (some h) c d = if h == c.stream then pop addr_eq c.addr d else d

-- The end of a UDP connection. The flag is `handshake_decremented`.
unfoldable pub finish_udp : Bool → Connection → Server → Server
finish_udp decremented c s = close_stream (some c.stream) (record s {
  udp_in_progress_handshakes =
      if decremented
      then s.udp_in_progress_handshakes
      else lower c.addr.host s.udp_in_progress_handshakes;
  udp_handshakes = pop_held (get addr_eq c.addr s.udp_handshakes) c s.udp_handshakes;
  udp_sessions = pop_held (get addr_eq c.addr s.udp_sessions) c s.udp_sessions;
})
