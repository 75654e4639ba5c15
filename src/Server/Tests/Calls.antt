-- ===== src/Server/Tests/Calls.antt =====
-- Examples for whole calls and for the life of a server.
use usmp_python.Prelude.{
  sym, none≢some, ◌*◌, ◌+◌, ◌≤◌, ◌≡◌, refl, true, false, [], ◌∷◌, ◌↔◌, arith, length, replicate,
  bytes_eq, none, some, suc, if◌then◌else◌, ◌<◌, ltb, ℕ, ◌⊎◌, drop, subst,
}
use usmp_python.Errors.{ok, err, timeout_error, value_error, runtime_error}
use usmp_python.Handshake.Psk.{PskSource, resolve_psk, lookup_psk}
use usmp_python.Handshake.Limiter.{fails_of, check_lockout}
use usmp_python.Handshake.Server.{server_handshake, serve, receive_hello}
use usmp_python.Handshake.State.{receive}
use usmp_python.Server.Handle.{
  Handler, Visit, Node, run_handshake, run_session, on_tcp_connect, on_udp_connect,
}
use usmp_python.Server.Expire.{timed_out, on_tcp_connect-counts}
use usmp_python.Server.Balance.{on_connect-Reach}
use usmp_python.Prelude.Texts.{codes}
use usmp_python.Transport.Registry.{ListenerClass, get_listener_class, core_protocols}
use usmp_python.Server.Watchdog.{Callback, watchdog, closed_at, LeavesAt, watchdog-closes}
use usmp_python.Server.Setup.{empty_server, new_server, new_server-resolve_psk}
use usmp_python.Server.Turns.{Serving, Turn, Turns, IsHeld, Turns-IsHeld}
use usmp_python.Server.Idle.{empty_server-idle}
use usmp_python.Server.Lifecycle.{Service, begin_serve, stops, IsStopping, begin_serve-stops}
use usmp_python.Server.Owned.{IsTidy, IsOwn, IsOwned, put-IsOwn}
use usmp_python.Server.Release.{Released, on_udp_connect-Released}
use usmp_python.Prelude.Texts.{digits}
use usmp_python.Types.{Bytes}
use usmp_python.Crypto.Model.{sum_primitives}
use usmp_python.Handshake.Limiter.{lookup}
use usmp_python.Server.Dict.{get, put, IsUnique}
use usmp_python.Server.State.{addr_eq, Connection, Server}
use usmp_python.Server.Connect.{admit_tcp, finish_tcp, finish_udp}
use usmp_python.Server.Listener.{
  cookie_at, handle_udp_datagram, first_hello, limit_handshakes, start_handshake, feed_stream,
}
use usmp_python.Server.Live.{Step, Reach}
use usmp_python.Server.Tests.{idle, clock, peer, greeting, before, busy, busier}

-- A connection whose handshake runs out of time.
abbrev slow : Visit
slow = record {
  ip = 49 ∷ [];
  link = record {
    is_reliable = true;
    outcomes = [];
    sent = [];
    keys = [];
    confirmed = [];
    closed = false;
  };
  reads = err timeout_error ∷ [];
  drawn = record { priv = replicate 32 8; nonce = replicate 32 9; session_id = replicate 16 3 };
  arrived = 100;
  failed_at = 200;
  started = 300;
  timed_out = 400;
}

abbrev key : PskSource
key = PskSource.shared (replicate 16 5)

abbrev node : Node
node = record { server = idle; failures = [] }

few_failures :
    suc (fails_of (lookup (49 ∷ []) (run_handshake sum_primitives key none slow []).1.failures))
    < 1029
unfolding run_handshake server_handshake lookup check_lockout serve receive_hello receive
few_failures = omega arith

on_tcp_connect-counts_example :
    let o = run_handshake sum_primitives key none slow [] in
    let (r, link, n') = on_tcp_connect sum_primitives key none slow node in
    (r ≡ ok tt)
    × (link.closed ≡ true)
    × (fails_of (lookup (49 ∷ []) n'.failures) ≡ (
        if timed_out (run_session sum_primitives key none slow o).0
        then suc (fails_of (lookup (49 ∷ []) o.1.failures))
        else fails_of (lookup (49 ∷ []) o.1.failures)))
unfolding admit_tcp get
on_tcp_connect-counts_example =
    on_tcp_connect-counts sum_primitives key none slow node busy refl few_failures

-- A task with its stream.
abbrev handle : Connection
handle = record { addr = peer; stream = 0 }

abbrev busier_node : Node
busier_node = record { server = busier; failures = [] }

on_connect-Reach_example :
    Reach sum_primitives
      (record { server = busier; tcp = []; shaking = (49 ∷ []) ∷ [] })
      (record {
        server = (on_tcp_connect sum_primitives key none slow busier_node).2.server;
        tcp = [];
        shaking = (49 ∷ []) ∷ [];
      })
    × Reach sum_primitives
        (record { server = busier; tcp = []; shaking = (49 ∷ []) ∷ [] })
        (record {
          server = (on_udp_connect sum_primitives key none slow handle busier_node).2.server;
          tcp = [];
          shaking = [];
        })
on_connect-Reach_example =
    on_connect-Reach sum_primitives key none slow busier_node handle [] ((49 ∷ []) ∷ []) [] []

busier-IsTidy : IsTidy busier
unfolding IsUnique get put bytes_eq lookup digits handle_udp_datagram first_hello cookie_at
    admit_tcp limit_handshakes start_handshake feed_stream
busier-IsTidy = record { unique_handshakes = (refl, tt); unique_sessions = tt }

busier-handshakes : busier.udp_handshakes ≡ put addr_eq peer 0 []
unfolding get put bytes_eq lookup digits handle_udp_datagram first_hello cookie_at admit_tcp
    limit_handshakes start_handshake feed_stream
busier-handshakes = refl

busier-IsOwned : IsOwned handle busier
unfolding get handle_udp_datagram admit_tcp cookie_at first_hello bytes_eq digits limit_handshakes
    lookup start_handshake feed_stream
busier-IsOwned = record {
  own_handshake =
      subst (IsOwn handle) (sym busier-handshakes)
        (put-IsOwn handle [] λ a h. absurd (none≢some h));
  own_session = λ a h. absurd (none≢some h);
}

on_udp_connect-Released_example :
    Released handle (on_udp_connect sum_primitives key none slow handle busier_node).2.server
    × ((on_udp_connect sum_primitives key none slow handle busier_node).1.closed ≡ true)
on_udp_connect-Released_example =
    on_udp_connect-Released sum_primitives key none slow handle busier_node busier-IsTidy
      busier-IsOwned

-- Wakes every 30 units, with a delay of at most 2; the last frame came at 65,
-- and `on_timeout` takes 7.
abbrev heard_at : ℕ → ℕ
heard_at t = if ltb t 65 then 0 else 65

heard_once : (t : ℕ) → 65 ≤ t → heard_at t ≡ 65
heard_once t h = ground arith

watchdog-closes_example :
    (t : ℕ) × LeavesAt
      (some (Callback.ends_after 7))
      30
      heard_at
      (30 ∷ 60 ∷ 91 ∷ 122 ∷ 153 ∷ 185 ∷ [])
      t
    × (u : ℕ) × (closed_at (
          watchdog (some (Callback.ends_after 7)) 30 heard_at (30 ∷ 60 ∷ 91 ∷ 122 ∷ 153 ∷ 185 ∷ []))
        ≡ some u)
    × (t ≤ u)
    × (u ≤ 65 + 2 * 30 + 30 + 2 + 7)
watchdog-closes_example =
    watchdog-closes (some (Callback.ends_after 7)) 30 heard_at (30 ∷ 60 ∷ 91 ∷ 122 ∷ 153 ∷ 185 ∷ [])
      2 7 0 65 (omega arith) (omega arith) (omega arith) heard_once (omega arith)

new_server-resolve_psk_example :
    (new_server key 2 1 (7 ∷ []) ≡ err value_error)
    ⊎ ((new_server key 2 1 (7 ∷ []) ≡ ok (empty_server 2 1 (7 ∷ [])))
        × ((device : Bytes) → resolve_psk key device ≡ lookup_psk key device))
new_server-resolve_psk_example = new_server-resolve_psk 2 1 (7 ∷ []) key tt

-- A task comes and ends.
abbrev full_server : Server
full_server = handle_udp_datagram sum_primitives clock [] greeting peer idle

taken_up : drop (length idle.tasks) full_server.tasks ≡ handle ∷ []
unfolding get put bytes_eq lookup digits handle_udp_datagram first_hello cookie_at limit_handshakes
    start_handshake feed_stream
taken_up = refl

abbrev at_first : Serving
at_first = record { server = empty_server 2 1 (7 ∷ []); live = [] }

abbrev at_last : Serving
at_last = record { server = finish_udp false handle full_server; live = [] }

turns : Turns sum_primitives at_first at_last
turns =
    Turns.turn at_first (record { server = full_server; live = handle ∷ [] }) at_last
      (subst (λ xs. Turn sum_primitives at_first (record { server = full_server; live = xs }))
        taken_up (Turn.comes clock [] greeting peer idle []))
      (Turns.turn _ at_last at_last (Turn.ends false handle full_server [] []) (Turns.stay at_last))

nothing-IsHeld : IsHeld at_first
unfolding IsUnique
nothing-IsHeld = record {
  tidy = record { unique_handshakes = tt; unique_sessions = tt };
  handshakes = tt;
  sessions = tt;
}

Turns-IsHeld_example : IsHeld at_last
Turns-IsHeld_example = Turns-IsHeld sum_primitives at_first at_last turns nothing-IsHeld

abbrev come_and_gone : Server
come_and_gone = finish_tcp (49 ∷ []) busy

gone : Reach sum_primitives before (record { server = come_and_gone; tcp = []; shaking = [] })
unfolding admit_tcp get
gone =
    Reach.step before (record { server = busy; tcp = (49 ∷ []) ∷ []; shaking = [] }) _
      (Step.tcp_comes (49 ∷ []) idle [] [])
      (Reach.step _ _ _ (Step.tcp_ends (49 ∷ []) busy [] [] []) (Reach.stay _))

empty_server-idle_example :
    (come_and_gone.tcp_connections ≡ [])
    × (come_and_gone.udp_in_progress_handshakes ≡ [])
    × (at_last.server.udp_handshakes ≡ [])
    × (at_last.server.udp_sessions ≡ [])
empty_server-idle_example =
    empty_server-idle sum_primitives 2 1 (7 ∷ []) come_and_gone at_last.server gone turns

-- `stop` is called once while the listener starts, and twice later.
abbrev service : Service
service = record {
  protocol = codes "UDP";
  handler = some (λ s. (ok tt, s));
  listener = none;
  shutdown_event = none;
}

begin_serve-stops_example :
    let (result, s') = begin_serve core_protocols 1 (ok tt) service in
    ((service.handler ≡ none) × (result ≡ err runtime_error) × (s' ≡ service))
    ⊎ ((fn : Handler) × (service.handler ≡ some fn)
        × (get_listener_class (codes "UDP") core_protocols ≡ err value_error)
        × (result ≡ err value_error)
        × (s' ≡ service))
    ⊎ ((fn : Handler) × (service.handler ≡ some fn)
        × (cls : ListenerClass) × (get_listener_class (codes "UDP") core_protocols ≡ ok cls)
        × (result ≡ ok tt)
        × (s'.listener ≡ some cls)
        × (IsStopping (stops 2 s') ↔ (0 < 2)))
begin_serve-stops_example = begin_serve-stops core_protocols 1 2 service
