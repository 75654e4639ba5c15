-- ===== src/Server/Tests.antt =====
-- Examples for the server: admission, the cookies and the counters. `Calls` has whole calls.
mod Calls
use usmp_python.Prelude.{
  ◌*◌, ◌+◌, ◌≤◌, ◌≡◌, refl, true, false, [], ◌∷◌, ◌++◌, ◌↔◌, inr, arith, length, replicate,
  bytes_eq,
}
use usmp_python.Prelude.Texts.{digits}
use usmp_python.Types.{Bytes}
use usmp_python.Crc.{crc16}
use usmp_python.Frame.{encode_frame}
use usmp_python.Crypto.Model.{sum_primitives}
use usmp_python.Handshake.Limiter.{lookup}
use usmp_python.Server.Dict.{get, put, IsUnique}
use usmp_python.Server.State.{Addr, Server}
use usmp_python.Server.Connect.{admit_tcp, finish_tcp}
use usmp_python.Server.Bucket.{allow_udp_cookie}
use usmp_python.Server.Listener.{Clock, cookie_at, handle_udp_datagram, first_hello}
use usmp_python.Server.Counts.{count}
use usmp_python.Server.Admit.{Admits}
use usmp_python.Server.Start.{Starts, handle_udp_datagram-Admits}
use usmp_python.Server.Live.{World, Step, Reach, IsSound}
use usmp_python.Server.Run.{reach-IsSound}
use usmp_python.Server.Rate.{allowed, allowed-rate}

abbrev pub idle : Server
idle = record {
  max_connections = 2;
  max_connections_per_ip = 1;
  cookie_secret = 7 ∷ [];
  tcp_connections = [];
  udp_sessions = [];
  udp_handshakes = [];
  udp_in_progress_handshakes = [];
  udp_cookie_rate_limiter = [];
  streams = [];
  tasks = [];
  sent = [];
}

abbrev pub clock : Clock
clock = record { bucket = 5; now = 100 }

abbrev pub peer : Addr
peer = record { host = 49 ∷ []; port = 80 }

abbrev hello : Bytes
hello = 0xcd ∷ 0xab ∷ 2 ∷ 1 ∷ 1 ∷ 0 ∷ 0 ∷ 0 ∷ 54 ∷ 0 ∷ 0 ∷ 0 ∷ replicate 38 9

-- The server gave this cookie in the half minute before.
abbrev pub greeting : Bytes
greeting = hello ++ cookie_at sum_primitives clock [] hello peer 4 idle.cookie_secret

handle_udp_datagram-Admits_example :
    Starts sum_primitives clock [] greeting peer idle
      (handle_udp_datagram sum_primitives clock [] greeting peer idle)
    × (Admits sum_primitives clock [] greeting peer idle ↔ (
        (handle_udp_datagram sum_primitives clock [] greeting peer idle).tasks
        ≡ record { addr = peer; stream = 0 } ∷ []))
handle_udp_datagram-Admits_example =
    handle_udp_datagram-Admits sum_primitives clock [] greeting peer idle

-- A connection over TCP comes, a handshake over UDP starts, and the first one ends.
abbrev pub before : World
before = record { server = idle; tcp = []; shaking = [] }

abbrev pub busy : Server
busy = (admit_tcp (49 ∷ []) idle).1

welcome : Admits sum_primitives clock [] greeting peer busy
unfolding cookie_at digits get lookup admit_tcp
welcome = record {
  unknown = refl;
  hello_type = refl;
  with_cookie = refl;
  right_cookie = inr refl;
  unlocked = refl;
  few_here = omega arith;
  few = omega arith;
}

abbrev pub busier : Server
busier = handle_udp_datagram sum_primitives clock [] greeting peer busy

abbrev after : World
after = record { server = finish_tcp (49 ∷ []) busier; tcp = []; shaking = (49 ∷ []) ∷ [] }

run : Reach sum_primitives before after
unfolding admit_tcp get
run =
    Reach.step before (record { server = busy; tcp = (49 ∷ []) ∷ []; shaking = [] }) after
      (Step.tcp_comes (49 ∷ []) idle [] [])
      (Reach.step _ (record { server = busier; tcp = (49 ∷ []) ∷ []; shaking = (49 ∷ []) ∷ [] })
        after (Step.datagram_starts clock [] greeting peer busy ((49 ∷ []) ∷ []) [] welcome)
        (Reach.step _ after after (Step.tcp_ends (49 ∷ []) busier [] [] ((49 ∷ []) ∷ []))
          (Reach.stay after)))

sound : IsSound before
unfolding count get IsUnique
sound = record {
  tcp_counted = record { unique = tt; each = λ ip. refl; whole = refl; positive = tt };
  tcp_bounded = omega arith;
  tcp_bounded_here = λ ip. omega arith;
  shaking_counted = record { unique = tt; each = λ ip. refl; whole = refl; positive = tt };
  shaking_bounded = λ ip. omega arith;
  sessions_bounded = omega arith;
}

reach-IsSound_example : IsSound after
reach-IsSound_example = reach-IsSound sum_primitives before after run sound

-- A second connection from an address that may have one is refused.
second_refused : (admit_tcp (49 ∷ []) busy).0 ≡ false
unfolding admit_tcp get put bytes_eq
second_refused = refl

-- A HELLO without a cookie is answered twice, with a UTACK and a HELLO_RETRY, and starts nothing.
bare_hello :
    let s = handle_udp_datagram sum_primitives clock [] hello peer idle in
    (length s.sent ≡ 2) × (s.tasks ≡ []) × (s.streams ≡ [])
unfolding handle_udp_datagram first_hello allow_udp_cookie get put cookie_at digits encode_frame
    crc16
bare_hello = (refl, refl, refl)

-- An empty bucket refuses, and after a fifth of a second allows one more.
drained :
    (allow_udp_cookie 100
      (49 ∷ [])
      (record idle { udp_cookie_rate_limiter = (49 ∷ [], (999, 100)) ∷ [] })).0
    ≡ false
unfolding allow_udp_cookie get put bytes_eq
drained = refl

refilled_again :
    (allow_udp_cookie 300
      (49 ∷ [])
      (record idle { udp_cookie_rate_limiter = (49 ∷ [], (0, 100)) ∷ [] })).0
    ≡ true
unfolding allow_udp_cookie get put bytes_eq
refilled_again = refl

-- Three calls in a second, then one after another.
allowed-rate_example :
    1000 * allowed (49 ∷ []) (100 ∷ 100 ∷ 1100 ∷ 2100 ∷ []) idle ≤ 10000 + 5 * 2000
allowed-rate_example =
    allowed-rate (49 ∷ []) 100 (100 ∷ 1100 ∷ 2100 ∷ []) idle (omega arith) (omega arith)
