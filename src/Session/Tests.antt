-- ===== src/Session/Tests.antt =====
-- Examples for sessions, over TCP. `Udp` has those over UDP.
mod Udp
use usmp_python.Prelude.{
  ℕ, zero, suc, ◌<◌, ◌≡◌, refl, ap, true, false, none, some, List, [], ◌∷◌, ◌++◌, map, arith,
  replicate, get_or,
}
use usmp_python.Errors.{Result, ok, err}
use usmp_python.Types.{Bytes, CipherSuite, SessionInfo}
use usmp_python.Bytes.{IsBytes}
use usmp_python.Frame.{decode_frame}
use usmp_python.Transport.{Link}
use usmp_python.Crypto.{derive_rekey_keys}
use usmp_python.Crypto.Model.{sum_primitives, sum-IsAead}
use usmp_python.Session.State.{Session}
use usmp_python.Session.Send.{send, send_loop, rekey, bye}
use usmp_python.Session.Recv.{Arrival, recv}
use usmp_python.Session.Nonce.{NoReuse}
use usmp_python.Session.Steps.{Step, Reach, reach-NoReuse}
use usmp_python.Session.Kept.{FreshKey}
use usmp_python.Session.Packet.{IsReady}
use usmp_python.Session.Deliver.{sent_since, send-recv, send-enough_fuel}
use usmp_python.Session.Exchange.{Read, Peers}

abbrev pub link : Link
link = record {
  is_reliable = true;
  outcomes = [];
  sent = [];
  keys = [];
  confirmed = [];
  closed = false;
}

abbrev pub info : SessionInfo
info = record {
  device_id = replicate 6 1;
  session_id = replicate 16 2;
  tx_key = replicate 32 3;
  rx_key = replicate 32 4;
  tx_seq = 0;
  rx_seq = 0;
  rx_window_bitmap = 0;
  cipher_suite = CipherSuite.aes256_gcm;
}

abbrev pub start : Session
start = record {
  info = info;
  link = link;
  last_recv = 0;
  recv_timeout = none;
  closed = false;
  seals = [];
}

abbrev salt : Bytes
salt = replicate 32 5

first_of : Result (Bytes × Bytes) → ℕ
first_of (ok (k, _)) = get_or k 0 0
first_of (err e) = 0

salt_is_fresh : FreshKey sum_primitives salt start
unfolding derive_rekey_keys first_of
salt_is_fresh tx rx h = (λ e. omega (arith, ap first_of h, ap (λ k. get_or k 0 0) e), tt)

abbrev rekeyed : Session
rekeyed = (rekey sum_primitives salt start).1

abbrev spoken : Session
spoken = (send sum_primitives (1 ∷ 2 ∷ 3 ∷ []) rekeyed).1

abbrev ended : Session
ended = (bye sum_primitives spoken).1

abbrev run : Reach sum_primitives start ended
run =
    Reach.next
      (Reach.next (Reach.next Reach.here (Step.rekeys salt start salt_is_fresh))
        (Step.sends (1 ∷ 2 ∷ 3 ∷ []) rekeyed))
      (Step.byes spoken)

reach-NoReuse_example : NoReuse ended.seals
reach-NoReuse_example = reach-NoReuse sum_primitives refl refl (omega arith) run

-- Two ends of a TCP connection.
abbrev pub peer : Session
peer = record start { info = record info { tx_key = replicate 32 4; rx_key = replicate 32 3 } }

replicate-IsBytes : (n b : ℕ) → b < 256 → IsBytes (replicate n b)
replicate-IsBytes zero b h = tt
replicate-IsBytes (suc n) b h = (h, replicate-IsBytes n b h)

abbrev pub arrival_of : Bytes → Arrival
arrival_of w = record { frame = decode_frame w true; read_at = 1; counted_at = 2 }

reads : (ws : List Bytes) → Read ws (map arrival_of ws)
reads [] = tt
reads (w ∷ ws) = (refl, reads ws)

abbrev pub start-IsReady : IsReady start
start-IsReady = record {
  key_length = refl;
  id_length = refl;
  id_bytes = omega arith;
  delivers = refl;
}

abbrev start-Peers : Peers start peer
start-Peers = record {
  reliable = refl;
  same_key = refl;
  same_id = refl;
  same_suite = refl;
  same_seq = refl;
}

-- Two packets.
abbrev long_message : Bytes
long_message = replicate 500 7

abbrev pub sent : Session
sent = (send sum_primitives long_message start).1

send-recv_example :
    ((send sum_primitives long_message start).0 ≡ ok tt)
    × IsReady sent
    × (r' : Session) × (recv sum_primitives none 0
          (map arrival_of (sent_since start sent) ++ [])
          peer
        ≡ (ok (some long_message), [], r'))
    × Peers sent r'
send-recv_example =
    send-recv sum_primitives sum-IsAead long_message start peer none 0
      (map arrival_of (sent_since start sent)) [] start-IsReady start-Peers
      (replicate-IsBytes 500 7 (omega arith)) (omega arith) (omega arith)
      (reads (sent_since start sent))

send-enough_fuel_example :
    send sum_primitives long_message start ≡ send_loop sum_primitives 9 long_message start
send-enough_fuel_example =
    send-enough_fuel sum_primitives long_message start 9 (omega arith) (omega arith)
