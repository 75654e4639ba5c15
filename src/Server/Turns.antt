-- ===== src/Server/Turns.antt =====
-- The UDP side of a server over any run: whose streams its dictionaries lead to.
use usmp_python.Prelude.{
  ◌≡◌, refl, List, [], ◌∷◌, ◌++◌, inl, inr, sym, subst, length, drop, drop-append, Bool, Bool-cases,
  leb, Any-here,
}
use usmp_python.Types.{Bytes}
use usmp_python.Crypto.{Primitives}
use usmp_python.Handshake.Limiter.{Failures}
use usmp_python.Server.Dict.{IsUnique, get, put-IsUnique, All-pop}
use usmp_python.Server.State.{Addr, addr_eq, Connection, Server}
use usmp_python.Server.Connect.{establish_udp, finish_udp, sessions_of}
use usmp_python.Server.Listener.{Clock, handle_udp_datagram, start_handshake, feed_stream}
use usmp_python.Server.Start.{handle_udp_datagram-Starts}
use usmp_python.Server.Owned.{IsTidy, addr_eq-IsEquality, establish_udp-IsTidy}
use usmp_python.Server.Stop.{stop_listener}
use usmp_python.Server.Held.{
  AllLead, AllLead-left, AllLead-put, pop_held-IsUnique, pop_held-AllLead,
}

-- A server, and the connections over UDP whose task has not ended.
pub record Serving : Type 0 where
  pub server : Server
  pub live : List Connection

module _ (p : Primitives) where
  -- A datagram comes, and starts the tasks that it adds; the handshake of a task succeeds; a task
  -- ends, before that or after; the listener stops.
  pub data Turn : Serving → Serving → Type 0 where
    comes :
        (c : Clock) (failures : Failures) (bs : Bytes) (addr : Addr) (s : Server)
        (live : List Connection)
        → Turn
            (record { server = s; live = live })
            (record {
              server = handle_udp_datagram p c failures bs addr s;
              live =
                  live ++ drop (length s.tasks) (handle_udp_datagram p c failures bs addr s).tasks;
            })
    establishes :
        (x : Connection) (s : Server) (xs ys : List Connection)
        → Turn
            (record { server = s; live = xs ++ (x ∷ ys) })
            (record { server = (establish_udp x s).1; live = xs ++ (x ∷ ys) })
    ends :
        (decremented : Bool) (x : Connection) (s : Server) (xs ys : List Connection)
        → Turn
            (record { server = s; live = xs ++ (x ∷ ys) })
            (record { server = finish_udp decremented x s; live = xs ++ ys })
    stops :
        (s : Server) (live : List Connection)
        → Turn
            (record { server = s; live = live })
            (record { server = stop_listener s; live = live })

  pub data Turns : Serving → Serving → Type 0 where
    stay : (w : Serving) → Turns w w
    turn : (u v w : Serving) → Turn u v → Turns v w → Turns u w

pub record IsHeld (w : Serving) : Type 0 where
  pub tidy : IsTidy w.server
  pub handshakes : AllLead w.server.udp_handshakes w.live
  pub sessions : AllLead w.server.udp_sessions w.live

-- More connections, and dictionaries with no more entries.
IsHeld-by :
    (s s' : Server) (live more : List Connection)
    → s'.udp_sessions ≡ s.udp_sessions
    → s'.udp_handshakes ≡ s.udp_handshakes
    → IsHeld (record { server = s; live = live })
    → IsHeld (record { server = s'; live = live ++ more })
IsHeld-by s s' live more es eh i = record {
  tidy = record {
    unique_handshakes = subst (IsUnique addr_eq) (sym eh) i.tidy.unique_handshakes;
    unique_sessions = subst (IsUnique addr_eq) (sym es) i.tidy.unique_sessions;
  };
  handshakes =
      subst (λ d. AllLead d (live ++ more)) (sym eh)
        (AllLead-left s.udp_handshakes live more i.handshakes);
  sessions =
      subst (λ d. AllLead d (live ++ more)) (sym es)
        (AllLead-left s.udp_sessions live more i.sessions);
}

module _ (p : Primitives) where
  start_handshake-IsHeld :
      (c : Clock) (failures : Failures) (bs : Bytes) (addr : Addr) (s : Server)
      (live : List Connection)
      → IsHeld (record { server = s; live = live })
      → IsHeld (record {
        server = start_handshake p c failures bs addr s;
        live = live ++ drop (length s.tasks) (start_handshake p c failures bs addr s).tasks;
      })
  unfolding start_handshake feed_stream
  start_handshake-IsHeld c failures bs addr s live i =
      let x : Connection = record { addr = addr; stream = length s.streams } in
      rw (drop-append (length s.tasks) s.tasks (x ∷ []) refl) (record {
        tidy = record {
          unique_handshakes =
              put-IsUnique addr_eq addr_eq-IsEquality addr (length s.streams) s.udp_handshakes
                i.tidy.unique_handshakes;
          unique_sessions = i.tidy.unique_sessions;
        };
        handshakes =
            AllLead-put x s.udp_handshakes (live ++ (x ∷ [])) (Any-here _ live [] x (refl, refl))
              (AllLead-left s.udp_handshakes live (x ∷ []) i.handshakes);
        sessions = AllLead-left s.udp_sessions live (x ∷ []) i.sessions;
      })

  comes-IsHeld :
      (c : Clock) (failures : Failures) (bs : Bytes) (addr : Addr) (s : Server)
      (live : List Connection)
      → IsHeld (record { server = s; live = live })
      → IsHeld (record {
        server = handle_udp_datagram p c failures bs addr s;
        live = live ++ drop (length s.tasks) (handle_udp_datagram p c failures bs addr s).tasks;
      })
  comes-IsHeld c failures bs addr s live i =
      elim (handle_udp_datagram-Starts p c failures bs addr s) [
        | inl k ↦ IsHeld-by s _ live _ k.same_sessions k.same_handshakes i
        | inr (a, e) ↦ rw e (start_handshake-IsHeld c failures bs addr s live i)
      ]

establishes-IsHeld :
    (x : Connection) (s : Server) (xs ys : List Connection)
    → IsHeld (record { server = s; live = xs ++ (x ∷ ys) })
    → IsHeld (record { server = (establish_udp x s).1; live = xs ++ (x ∷ ys) })
unfolding establish_udp
establishes-IsHeld x s xs ys i = elim (Bool-cases (leb s.max_connections (length s.udp_sessions))) [
  | inl full ↦ record {
    tidy = establish_udp-IsTidy x s i.tidy;
    handshakes = rw full i.handshakes;
    sessions = rw full i.sessions;
  }
  | inr space ↦
      elim (Bool-cases (leb s.max_connections_per_ip (sessions_of x.addr.host s.udp_sessions))) [
        | inl full_here ↦ record {
          tidy = establish_udp-IsTidy x s i.tidy;
          handshakes = rw (space, full_here) i.handshakes;
          sessions = rw (space, full_here) i.sessions;
        }
        | inr space_here ↦ record {
          tidy = establish_udp-IsTidy x s i.tidy;
          handshakes =
              rw (space, space_here) (All-pop addr_eq _ x.addr s.udp_handshakes i.handshakes);
          sessions =
              rw (space, space_here)
                (AllLead-put x s.udp_sessions (xs ++ (x ∷ ys)) (Any-here _ xs ys x (refl, refl))
                  i.sessions);
        }
      ]
]

ends-IsHeld :
    (decremented : Bool) (x : Connection) (s : Server) (xs ys : List Connection)
    → IsHeld (record { server = s; live = xs ++ (x ∷ ys) })
    → IsHeld (record { server = finish_udp decremented x s; live = xs ++ ys })
unfolding finish_udp
ends-IsHeld decremented x s xs ys i = record {
  tidy = record {
    unique_handshakes =
        pop_held-IsUnique (get addr_eq x.addr s.udp_handshakes) x s.udp_handshakes
          i.tidy.unique_handshakes;
    unique_sessions =
        pop_held-IsUnique (get addr_eq x.addr s.udp_sessions) x s.udp_sessions
          i.tidy.unique_sessions;
  };
  handshakes = pop_held-AllLead x s.udp_handshakes xs ys i.tidy.unique_handshakes i.handshakes;
  sessions = pop_held-AllLead x s.udp_sessions xs ys i.tidy.unique_sessions i.sessions;
}

stops-IsHeld :
    (s : Server) (live : List Connection)
    → IsHeld (record { server = stop_listener s; live = live })
unfolding stop_listener IsUnique
stops-IsHeld s live = record {
  tidy = record { unique_handshakes = tt; unique_sessions = tt };
  handshakes = tt;
  sessions = tt;
}

module _ (p : Primitives) where
  Turn-IsHeld : (u v : Serving) → Turn p u v → IsHeld u → IsHeld v
  Turn-IsHeld _ _ (Turn.comes c failures bs addr s live) i =
      comes-IsHeld p c failures bs addr s live i
  Turn-IsHeld _ _ (Turn.establishes x s xs ys) i = establishes-IsHeld x s xs ys i
  Turn-IsHeld _ _ (Turn.ends decremented x s xs ys) i = ends-IsHeld decremented x s xs ys i
  Turn-IsHeld _ _ (Turn.stops s live) i = stops-IsHeld s live

  -- Over any run of the UDP side of a server, in which datagrams come, handshakes succeed, tasks end
  -- and the listener stops in any order, every entry of the dictionaries of handshakes and of
  -- sessions leads to the stream of a task that has not ended, under its own address; and no address
  -- stands twice.
  pub Turns-IsHeld : (u v : Serving) → Turns p u v → IsHeld u → IsHeld v
  Turns-IsHeld u _ (Turns.stay _) i = i
  Turns-IsHeld u v (Turns.turn _ w _ t r) i = Turns-IsHeld w v r (Turn-IsHeld u w t i)
