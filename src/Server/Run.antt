-- ===== src/Server/Run.antt =====
-- The steps of UDP connections, and the invariant over any run of a server.
use usmp_python.Prelude.{
  ℕ, ◌≤◌, ◌<◌, ◌≡◌, refl, true, false, Option, none, some, List, ◌∷◌, ◌++◌, inl, inr, arith, sym,
  subst, leb, ◌==◌, length, Bool-cases,
}
use usmp_python.Types.{Bytes}
use usmp_python.Crypto.{Primitives}
use usmp_python.Handshake.Limiter.{Failures}
use usmp_python.Server.Dict.{Dict, get, put, length-put, length-pop}
use usmp_python.Server.State.{Addr, addr_eq, Connection, Server, lower, close_stream}
use usmp_python.Server.Connect.{sessions_of, establish_udp, finish_udp, pop_held}
use usmp_python.Server.Listener.{Clock, feed_stream, start_handshake, handle_udp_datagram}
use usmp_python.Server.Counts.{Counted, raise-Counted, lower-Counted}
use usmp_python.Server.Admit.{Inert, Admits}
use usmp_python.Server.Start.{handle_udp_datagram-Starts, admitted_starts}
use usmp_python.Server.Stop.{stop_listener}
use usmp_python.Server.Live.{World, Step, Reach, IsSound}
use usmp_python.Server.Sound.{
  world, count-more, count-less, Stable, by_udp, tcp_comes-IsSound, tcp_ends-IsSound,
}

module _ (p : Primitives) (c : Clock) (failures : Failures) (bs : Bytes) (addr : Addr) where
  started-IsSound :
      (s : Server) (t w : List Bytes)
      → Admits p c failures bs addr s
      → IsSound (world s t w)
      → IsSound (world (start_handshake p c failures bs addr s) t (addr.host ∷ w))
  unfolding start_handshake feed_stream
  started-IsSound s t w a i =
      by_udp s _ t w (addr.host ∷ w)
        (record { same_max = refl; same_max_per_ip = refl; same_tcp = refl }) i
        (raise-Counted addr.host s.udp_in_progress_handshakes w i.shaking_counted)
        (count-more 3 addr.host w (omega (arith, i.shaking_counted.each addr.host, a.few_here))
          i.shaking_bounded)
        i.sessions_bounded

  Inert-IsSound :
      (s s' : Server) (t w : List Bytes)
      → Inert s s'
      → IsSound (world s t w)
      → IsSound (world s' t w)
  Inert-IsSound s s' t w k i =
      by_udp s s' t w w
        (record {
          same_max = k.same_max;
          same_max_per_ip = k.same_max_per_ip;
          same_tcp = k.same_tcp;
        })
        i (subst (λ d. Counted d w) (sym k.same_progress) i.shaking_counted) i.shaking_bounded
        (subst (λ d. length d ≤ s.max_connections) (sym k.same_sessions) i.sessions_bounded)

  comes-IsSound :
      (s : Server) (t w : List Bytes)
      → ¬ Admits p c failures bs addr s
      → IsSound (world s t w)
      → IsSound (world (handle_udp_datagram p c failures bs addr s) t w)
  comes-IsSound s t w refused i = elim (handle_udp_datagram-Starts p c failures bs addr s) [
    | inl k ↦ Inert-IsSound s _ t w k i
    | inr (a, e) ↦ absurd (refused a)
  ]

close_stream-Inert : (o : Option ℕ) (s : Server) → Inert s (close_stream o s)
close_stream-Inert none s = record {
  same_max = refl;
  same_max_per_ip = refl;
  same_tcp = refl;
  same_sessions = refl;
  same_handshakes = refl;
  same_progress = refl;
  same_tasks = refl;
}
close_stream-Inert (some h) s = record {
  same_max = refl;
  same_max_per_ip = refl;
  same_tcp = refl;
  same_sessions = refl;
  same_handshakes = refl;
  same_progress = refl;
  same_tasks = refl;
}

-- The handshake that succeeded is no longer in progress, and there is room for a session that is
-- entered.
record Settled (ip : Bytes) (s s' : Server) : Type 0 where
  stable : Stable s s'
  lowered : s'.udp_in_progress_handshakes ≡ lower ip s.udp_in_progress_handshakes
  room : length s.udp_sessions ≤ s.max_connections → length s'.udp_sessions ≤ s.max_connections

establish_udp-Settled : (x : Connection) (s : Server) → Settled x.addr.host s (establish_udp x s).1
unfolding establish_udp
establish_udp-Settled x s = elim (Bool-cases (leb s.max_connections (length s.udp_sessions))) [
  | inl full ↦ rw full (record {
    stable = record { same_max = refl; same_max_per_ip = refl; same_tcp = refl };
    lowered = refl;
    room = λ h. h;
  })
  | inr space ↦
      elim (Bool-cases (leb s.max_connections_per_ip (sessions_of x.addr.host s.udp_sessions))) [
        | inl full_here ↦
            rw (space, full_here)
              (record {
                stable = record { same_max = refl; same_max_per_ip = refl; same_tcp = refl };
                lowered = refl;
                room = λ h. h;
              })
        | inr space_here ↦
            let k = close_stream-Inert (get addr_eq x.addr s.udp_sessions) (record s {
              udp_in_progress_handshakes = lower x.addr.host s.udp_in_progress_handshakes;
            }) in
            rw (space, space_here)
              (record {
                stable = record {
                  same_max = k.same_max;
                  same_max_per_ip = k.same_max_per_ip;
                  same_tcp = k.same_tcp;
                };
                lowered = k.same_progress;
                room = λ h. entered space;
              })
      ]
]
  where
    entered :
        leb s.max_connections (length s.udp_sessions) ≡ false
        → length (put addr_eq x.addr x.stream s.udp_sessions) ≤ s.max_connections
    entered space =
        let few : length s.udp_sessions < s.max_connections = ground arith in
        omega (arith, length-put addr_eq x.addr x.stream s.udp_sessions)

length-pop_held :
    (o : Option ℕ) (x : Connection) (d : Dict Addr ℕ) → length (pop_held o x d) ≤ length d
length-pop_held none x d = omega arith
length-pop_held (some h) x d = elim (Bool-cases (h == x.stream)) [
  | inl mine ↦ rw mine (length-pop addr_eq x.addr d)
  | inr other ↦ rw other (omega arith)
]

finish_udp-Settled : (x : Connection) (s : Server) → Settled x.addr.host s (finish_udp false x s)
unfolding finish_udp
finish_udp-Settled x s = record {
  stable = record { same_max = refl; same_max_per_ip = refl; same_tcp = refl };
  lowered = refl;
  room =
      λ h. omega (arith, length-pop_held (get addr_eq x.addr s.udp_sessions) x s.udp_sessions, h);
}

Settled-IsSound :
    (ip : Bytes) (s s' : Server) (t xs ys : List Bytes)
    → Settled ip s s'
    → IsSound (world s t (xs ++ (ip ∷ ys)))
    → IsSound (world s' t (xs ++ ys))
Settled-IsSound ip s s' t xs ys k i =
    by_udp s s' t (xs ++ (ip ∷ ys)) (xs ++ ys) k.stable i
      (subst (λ d. Counted d (xs ++ ys)) (sym k.lowered)
        (lower-Counted ip s.udp_in_progress_handshakes xs ys i.shaking_counted))
      (count-less 3 ip xs ys i.shaking_bounded) (k.room i.sessions_bounded)

ends-IsSound :
    (x : Connection) (s : Server) (t w : List Bytes)
    → IsSound (world s t w)
    → IsSound (world (finish_udp true x s) t w)
unfolding finish_udp
ends-IsSound x s t w i =
    by_udp s _ t w w (record { same_max = refl; same_max_per_ip = refl; same_tcp = refl }) i
      i.shaking_counted i.shaking_bounded
      (omega (
        arith,
        length-pop_held (get addr_eq x.addr s.udp_sessions) x s.udp_sessions,
        i.sessions_bounded,
      ))

stops-IsSound :
    (s : Server) (t w : List Bytes) → IsSound (world s t w) → IsSound (world (stop_listener s) t w)
unfolding stop_listener
stops-IsSound s t w i =
    by_udp s _ t w w (record { same_max = refl; same_max_per_ip = refl; same_tcp = refl }) i
      i.shaking_counted i.shaking_bounded (omega arith)

Step-IsSound : (p : Primitives) (u v : World) → Step p u v → IsSound u → IsSound v
Step-IsSound p _ _ (Step.tcp_comes ip s t w) i = tcp_comes-IsSound ip s t w i
Step-IsSound p _ _ (Step.tcp_ends ip s xs ys w) i = tcp_ends-IsSound ip s xs ys w i
Step-IsSound p _ _ (Step.datagram_starts c failures bs addr s t w a) i =
    rw (admitted_starts p c failures bs addr s a) (started-IsSound p c failures bs addr s t w a i)
Step-IsSound p _ _ (Step.datagram_comes c failures bs addr s t w refused) i =
    comes-IsSound p c failures bs addr s t w refused i
Step-IsSound p _ _ (Step.udp_established x s t xs ys) i =
    Settled-IsSound x.addr.host s _ t xs ys (establish_udp-Settled x s) i
Step-IsSound p _ _ (Step.udp_fails x s t xs ys) i =
    Settled-IsSound x.addr.host s _ t xs ys (finish_udp-Settled x s) i
Step-IsSound p _ _ (Step.udp_ends x s t w) i = ends-IsSound x s t w i
Step-IsSound p _ _ (Step.listener_stops s t w) i = stops-IsSound s t w i

-- Over any run of a server, in which connections come and end and datagrams arrive in any order, the
-- counters stay exact: of TCP connections there are at most as many as allowed, in all and from each
-- address; no address has more than three handshakes over UDP in progress; and there are at most as
-- many sessions over UDP as connections allowed.
pub reach-IsSound : (p : Primitives) (u v : World) → Reach p u v → IsSound u → IsSound v
reach-IsSound p u _ (Reach.stay _) i = i
reach-IsSound p u v (Reach.step _ w _ s r) i = reach-IsSound p w v r (Step-IsSound p u w s i)
