-- ===== src/Server/Idle.antt =====
-- What a server holds when nothing is connected.
use usmp_python.Prelude.{ℕ, ◌≡◌, refl, [], ◌∷◌, arith}
use usmp_python.Types.{Bytes}
use usmp_python.Crypto.{Primitives}
use usmp_python.Server.Dict.{Dict, IsUnique, get}
use usmp_python.Server.State.{Addr, Server}
use usmp_python.Server.Counts.{count, Counted, Counted-nil}
use usmp_python.Server.Live.{Reach, IsSound}
use usmp_python.Server.Sound.{world}
use usmp_python.Server.Run.{reach-IsSound}
use usmp_python.Server.Setup.{empty_server}
use usmp_python.Server.Held.{AllLead}
use usmp_python.Server.Turns.{Turns, IsHeld, Turns-IsHeld}

Counted-empty : Counted [] []
unfolding count get IsUnique
Counted-empty = record { unique = tt; each = λ ip. refl; whole = refl; positive = tt }

AllLead-nil : (d : Dict Addr ℕ) → AllLead d [] → d ≡ []
AllLead-nil [] h = refl
AllLead-nil (e ∷ d) h = absurd h.0

module _ (p : Primitives) (m k : ℕ) (secret : Bytes) where
  empty_server-IsSound : IsSound (world (empty_server m k secret) [] [])
  unfolding count
  empty_server-IsSound = record {
    tcp_counted = Counted-empty;
    tcp_bounded = omega arith;
    tcp_bounded_here = λ ip. omega arith;
    shaking_counted = Counted-empty;
    shaking_bounded = λ ip. omega arith;
    sessions_bounded = omega arith;
  }

  empty_server-IsHeld : IsHeld (record { server = empty_server m k secret; live = [] })
  unfolding IsUnique
  empty_server-IsHeld = record {
    tidy = record { unique_handshakes = tt; unique_sessions = tt };
    handshakes = tt;
    sessions = tt;
  }

  -- Nothing is kept of the connections that have ended: whatever happened since a server was
  -- constructed, when no TCP connection is open and no handshake over UDP is in progress, the two
  -- dictionaries of counters are empty; and when no task of a UDP connection is running, the two
  -- dictionaries of streams are.
  pub empty_server-idle :
      (s s' : Server)
      → Reach p (world (empty_server m k secret) [] []) (world s [] [])
      → Turns p
          (record { server = empty_server m k secret; live = [] })
          (record { server = s'; live = [] })
      → (s.tcp_connections ≡ [])
        × (s.udp_in_progress_handshakes ≡ [])
        × (s'.udp_handshakes ≡ [])
        × (s'.udp_sessions ≡ [])
  empty_server-idle s s' r t =
      let i = reach-IsSound p _ _ r empty_server-IsSound in
      let h = Turns-IsHeld p _ _ t empty_server-IsHeld in
      (
        Counted-nil s.tcp_connections i.tcp_counted,
        Counted-nil s.udp_in_progress_handshakes i.shaking_counted,
        AllLead-nil s'.udp_handshakes h.handshakes,
        AllLead-nil s'.udp_sessions h.sessions,
      )
