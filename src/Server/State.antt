-- ===== src/Server/State.antt =====
-- The state of `USMPServer` that decides who gets in. A stream is a handle into `streams`, since
-- the dictionaries share it with the task that serves it. Addresses are bytes and a port.
use usmp_python.Prelude.{
  ℕ, zero, suc, ◌+◌, ◌-◌, Bool, ◌&&◌, Option, none, some, List, [], ◌∷◌, ◌==◌, leb, if◌then◌else◌,
  bytes_eq,
}
use usmp_python.Types.{Bytes}
use usmp_python.Udp.Stream.{Stream, close}
use usmp_python.Server.Dict.{Dict, get, put, pop}

pub record Addr : Type 0 where
  pub host : Bytes
  pub port : ℕ

abbrev pub addr_eq : Addr → Addr → Bool
addr_eq a b = bytes_eq a.host b.host && a.port == b.port

-- A call of `_on_transport_connect`, with the stream if the transport is UDP.
pub record Connection : Type 0 where
  pub addr : Addr
  pub stream : ℕ

pub record Server : Type 0 where
  pub max_connections : ℕ
  pub max_connections_per_ip : ℕ
  pub cookie_secret : Bytes
  pub tcp_connections : Dict Bytes ℕ
  pub udp_sessions : Dict Addr ℕ
  pub udp_handshakes : Dict Addr ℕ
  pub udp_in_progress_handshakes : Dict Bytes ℕ
  -- The tokens, in thousandths, and the time of the last visit, in milliseconds.
  pub udp_cookie_rate_limiter : Dict Bytes (ℕ × ℕ)
  pub streams : List Stream
  -- The tasks that were created, and the datagrams sent outside a stream, oldest first.
  pub tasks : List Connection
  pub sent : List (Bytes × Addr)

abbrev pub or_zero : Option ℕ → ℕ
or_zero none = 0
or_zero (some n) = n

-- `counts.get(ip, 0)`.
abbrev pub count_of : Bytes → Dict Bytes ℕ → ℕ
count_of ip counts = or_zero (get bytes_eq ip counts)

-- `sum(counts.values())`.
abbrev pub total : Dict Bytes ℕ → ℕ
total [] = 0
total ((ip, n) ∷ counts) = n + total counts

-- `counts[ip] -= 1`, and `pop` when nothing is left, if there is an entry.
abbrev pub lower_entry : Bytes → Option ℕ → Dict Bytes ℕ → Dict Bytes ℕ
lower_entry ip none counts = counts
lower_entry ip (some n) counts =
    if leb n 1 then pop bytes_eq ip counts else put bytes_eq ip (n - 1) counts

unfoldable pub lower : Bytes → Dict Bytes ℕ → Dict Bytes ℕ
lower ip counts = lower_entry ip (get bytes_eq ip counts) counts

-- What is done to one stream of the list.
abbrev pub update : ℕ → (Stream → Stream) → List Stream → List Stream
update i f [] = []
update zero f (s ∷ ss) = f s ∷ ss
update (suc i) f (s ∷ ss) = s ∷ update i f ss

abbrev pub close_stream : Option ℕ → Server → Server
close_stream none s = s
close_stream (some h) s = record s { streams = update h close s.streams }
