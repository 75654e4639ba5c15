-- ===== src/Server/Stop.antt =====
-- `UDPListener.stop` of src/usmp/transport/udp.py. The tasks that it cancels end by their `finally`
-- clause, like any other end of a connection; `Shutdown` has which these are.
use usmp_python.Prelude.{
  ℕ, zero, suc, ◌<◌, ◌≡◌, refl, true, List, [], ◌∷◌, arith, length, get_or, All, All-map,
}
use usmp_python.Udp.Stream.{Stream, new_stream, close}
use usmp_python.Server.Dict.{Dict}
use usmp_python.Server.State.{Addr, Server, update}

-- `for stream in list(d.values()): stream.close()`.
unfoldable pub close_all : Dict Addr ℕ → List Stream → List Stream
close_all [] streams = streams
close_all ((a, h) ∷ d) streams = close_all d (update h close streams)

unfoldable pub stop_listener : Server → Server
stop_listener s = record s {
  streams = close_all s.udp_handshakes (close_all s.udp_sessions s.streams);
  udp_sessions = [];
  udp_handshakes = [];
}

-- The stream with this handle is closed, if there is one.
abbrev pub IsShut : List Stream → ℕ → Type 0
IsShut streams h = h < length streams → (get_or streams h (new_stream true)).closed ≡ true

pub update-IsShut : (h : ℕ) (ss : List Stream) → IsShut (update h close ss) h
unfolding close
update-IsShut h [] few = absurd (omega arith)
update-IsShut zero (s ∷ ss) few = refl
update-IsShut (suc h) (s ∷ ss) few = update-IsShut h ss (omega arith)

-- A closed stream stays closed.
update-kept : (h k : ℕ) (ss : List Stream) → IsShut ss k → IsShut (update h close ss) k
unfolding close
update-kept h k [] shut few = absurd (omega arith)
update-kept zero zero (s ∷ ss) shut few = refl
update-kept zero (suc k) (s ∷ ss) shut few = shut few
update-kept (suc h) zero (s ∷ ss) shut few = shut (omega arith)
update-kept (suc h) (suc k) (s ∷ ss) shut few =
    update-kept h k ss (λ fit. shut (omega (arith, fit))) (omega (arith, few))

close_all-kept :
    (d : Dict Addr ℕ) (k : ℕ) (ss : List Stream) → IsShut ss k → IsShut (close_all d ss) k
unfolding close_all
close_all-kept [] k ss shut = shut
close_all-kept ((a, h) ∷ d) k ss shut =
    close_all-kept d k (update h close ss) (update-kept h k ss shut)

close_all-IsShut : (d : Dict Addr ℕ) (ss : List Stream) → All (λ e. IsShut (close_all d ss) e.1) d
unfolding close_all
close_all-IsShut [] ss = tt
close_all-IsShut ((a, h) ∷ d) ss = (
  close_all-kept d h (update h close ss) (update-IsShut h ss),
  close_all-IsShut d (update h close ss),
)

-- When the listener over UDP has stopped, every stream that one of its dictionaries led to is closed,
-- also where other tasks share the stream, and the dictionaries are empty.
pub stop_listener-IsShut :
    (s : Server)
    → let t = stop_listener s in
      All (λ e. IsShut t.streams e.1) s.udp_sessions
      × All (λ e. IsShut t.streams e.1) s.udp_handshakes
      × (t.udp_sessions ≡ [])
      × (t.udp_handshakes ≡ [])
unfolding stop_listener
stop_listener-IsShut s = (
  All-map _ _ s.udp_sessions (λ e. close_all-kept s.udp_handshakes e.1 _)
      (close_all-IsShut s.udp_sessions s.streams),
  close_all-IsShut s.udp_handshakes (close_all s.udp_sessions s.streams),
  refl,
  refl,
)
