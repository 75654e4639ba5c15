-- ===== src/Server/Live.antt =====
-- The life of a server as a step relation: connections come, are admitted or not, and end, in any
-- order, datagrams arrive in between, and the listener over UDP stops.
use usmp_python.Prelude.{◌≤◌, true, false, List, ◌∷◌, ◌++◌, if◌then◌else◌, length}
use usmp_python.Types.{Bytes}
use usmp_python.Crypto.{Primitives}
use usmp_python.Handshake.Limiter.{Failures}
use usmp_python.Server.State.{Addr, Connection, Server}
use usmp_python.Server.Connect.{admit_tcp, finish_tcp, establish_udp, finish_udp}
use usmp_python.Server.Listener.{Clock, handle_udp_datagram}
use usmp_python.Server.Stop.{stop_listener}
use usmp_python.Server.Counts.{count, Counted}
use usmp_python.Server.Admit.{Admits}

-- A server, the addresses of its TCP connections that were admitted and have not ended, and those
-- of its UDP connections whose handshake is in progress.
pub record World : Type 0 where
  pub server : Server
  pub tcp : List Bytes
  pub shaking : List Bytes

module _ (p : Primitives) where
  pub data Step : World → World → Type 0 where
    tcp_comes :
        (ip : Bytes) (s : Server) (t w : List Bytes)
        → Step
            (record { server = s; tcp = t; shaking = w })
            (record {
              server = (admit_tcp ip s).1;
              tcp = (if (admit_tcp ip s).0 then ip ∷ t else t);
              shaking = w;
            })
    tcp_ends :
        (ip : Bytes) (s : Server) (xs ys w : List Bytes)
        → Step
            (record { server = s; tcp = xs ++ (ip ∷ ys); shaking = w })
            (record { server = finish_tcp ip s; tcp = xs ++ ys; shaking = w })
    datagram_starts :
        (c : Clock) (failures : Failures) (bs : Bytes) (addr : Addr) (s : Server) (t w : List Bytes)
        → Admits p c failures bs addr s
        → Step
            (record { server = s; tcp = t; shaking = w })
            (record {
              server = handle_udp_datagram p c failures bs addr s;
              tcp = t;
              shaking = addr.host ∷ w;
            })
    datagram_comes :
        (c : Clock) (failures : Failures) (bs : Bytes) (addr : Addr) (s : Server) (t w : List Bytes)
        → ¬ Admits p c failures bs addr s
        → Step
            (record { server = s; tcp = t; shaking = w })
            (record { server = handle_udp_datagram p c failures bs addr s; tcp = t; shaking = w })
    udp_established :
        (x : Connection) (s : Server) (t xs ys : List Bytes)
        → Step
            (record { server = s; tcp = t; shaking = xs ++ (x.addr.host ∷ ys) })
            (record { server = (establish_udp x s).1; tcp = t; shaking = xs ++ ys })
    udp_fails :
        (x : Connection) (s : Server) (t xs ys : List Bytes)
        → Step
            (record { server = s; tcp = t; shaking = xs ++ (x.addr.host ∷ ys) })
            (record { server = finish_udp false x s; tcp = t; shaking = xs ++ ys })
    udp_ends :
        (x : Connection) (s : Server) (t w : List Bytes)
        → Step
            (record { server = s; tcp = t; shaking = w })
            (record { server = finish_udp true x s; tcp = t; shaking = w })
    listener_stops :
        (s : Server) (t w : List Bytes)
        → Step
            (record { server = s; tcp = t; shaking = w })
            (record { server = stop_listener s; tcp = t; shaking = w })

  pub data Reach : World → World → Type 0 where
    stay : (w : World) → Reach w w
    step : (u v w : World) → Step u v → Reach v w → Reach u w

-- The counters are exact, and what they count is within the limits.
pub record IsSound (w : World) : Type 0 where
  pub tcp_counted : Counted w.server.tcp_connections w.tcp
  pub tcp_bounded : length w.tcp ≤ w.server.max_connections
  pub tcp_bounded_here : (ip : Bytes) → count ip w.tcp ≤ w.server.max_connections_per_ip
  pub shaking_counted : Counted w.server.udp_in_progress_handshakes w.shaking
  pub shaking_bounded : (ip : Bytes) → count ip w.shaking ≤ 3
  pub sessions_bounded : length w.server.udp_sessions ≤ w.server.max_connections
