-- ===== src/Server/Admit.antt =====
-- Which datagrams start a handshake over UDP, and what the others leave alone.
use usmp_python.Prelude.{
  ℕ, ◌-◌, ◌*◌, ◌<◌, ◌≡◌, refl, Bool, true, false, Option, none, some, ◌⊎◌, inl, inr, arith, ◌∙◌,
  leb, ◌==◌, length, take, drop, bytes_eq, eq_of_bytes_eq, Bool-cases,
}
use usmp_python.Errors.{Result, ok, err}
use usmp_python.Types.{Bytes}
use usmp_python.Crypto.{Primitives}
use usmp_python.Udp.Stream.{utack_header, byte_at, word_at}
use usmp_python.Handshake.Limiter.{Failures, lookup}
use usmp_python.Server.Dict.{get}
use usmp_python.Server.State.{Addr, addr_eq, Server, count_of}
use usmp_python.Server.Bucket.{allow_udp_cookie}
use usmp_python.Server.Listener.{
  Clock, datagram_type, feed_stream, feed_found, locked_out, send_to, cookie_at, send_retry,
  issue_cookie, has_cookie, start_handshake, limit_handshakes, first_hello,
}

-- What a datagram leaves alone that starts nothing.
pub record Inert (s s' : Server) : Type 0 where
  pub same_max : s'.max_connections ≡ s.max_connections
  pub same_max_per_ip : s'.max_connections_per_ip ≡ s.max_connections_per_ip
  pub same_tcp : s'.tcp_connections ≡ s.tcp_connections
  pub same_sessions : s'.udp_sessions ≡ s.udp_sessions
  pub same_handshakes : s'.udp_handshakes ≡ s.udp_handshakes
  pub same_progress : s'.udp_in_progress_handshakes ≡ s.udp_in_progress_handshakes
  pub same_tasks : s'.tasks ≡ s.tasks

pub Inert-refl : (s : Server) → Inert s s
Inert-refl s = record {
  same_max = refl;
  same_max_per_ip = refl;
  same_tcp = refl;
  same_sessions = refl;
  same_handshakes = refl;
  same_progress = refl;
  same_tasks = refl;
}

Inert-trans : (s t u : Server) → Inert s t → Inert t u → Inert s u
Inert-trans s t u a b = record {
  same_max = b.same_max ∙ a.same_max;
  same_max_per_ip = b.same_max_per_ip ∙ a.same_max_per_ip;
  same_tcp = b.same_tcp ∙ a.same_tcp;
  same_sessions = b.same_sessions ∙ a.same_sessions;
  same_handshakes = b.same_handshakes ∙ a.same_handshakes;
  same_progress = b.same_progress ∙ a.same_progress;
  same_tasks = b.same_tasks ∙ a.same_tasks;
}

allow_udp_cookie-Inert : (now : ℕ) (ip : Bytes) (s : Server) → Inert s (allow_udp_cookie now ip s).1
unfolding allow_udp_cookie
allow_udp_cookie-Inert now ip s = record {
  same_max = ground arith;
  same_max_per_ip = ground arith;
  same_tcp = ground arith;
  same_sessions = ground arith;
  same_handshakes = ground arith;
  same_progress = ground arith;
  same_tasks = ground arith;
}

module _ (p : Primitives) (c : Clock) (failures : Failures) (bs : Bytes) (addr : Addr) where
  pub feed_stream-Inert : (h : ℕ) (s : Server) → Inert s (feed_stream p bs h s)
  unfolding feed_stream
  feed_stream-Inert h s = record {
    same_max = refl;
    same_max_per_ip = refl;
    same_tcp = refl;
    same_sessions = refl;
    same_handshakes = refl;
    same_progress = refl;
    same_tasks = refl;
  }

  pub feed_found-Inert : (o : Option ℕ) (s : Server) → Inert s (feed_found p bs o s)
  feed_found-Inert none s = Inert-refl s
  feed_found-Inert (some h) s = feed_stream-Inert h s

  send_to-Inert : (xs : Bytes) (s : Server) → Inert s (send_to addr xs s)
  send_to-Inert xs s = record {
    same_max = refl;
    same_max_per_ip = refl;
    same_tcp = refl;
    same_sessions = refl;
    same_handshakes = refl;
    same_progress = refl;
    same_tasks = refl;
  }

  send_retry-Inert : (r : Result Bytes) (s : Server) → Inert s (send_retry p c failures bs addr r s)
  send_retry-Inert (err e) s = Inert-refl s
  send_retry-Inert (ok retry_packet) s = send_to-Inert retry_packet s

  issue_cookie-Inert :
      (s : Server) (r : Bool × Server) → Inert s r.1 → Inert s (issue_cookie p c failures bs addr r)
  issue_cookie-Inert s (false, t) i = i
  issue_cookie-Inert s (true, t) i =
      let u = send_to addr (utack_header (byte_at bs 3) (word_at bs 4)) t in
      Inert-trans s t _ i (
        Inert-trans t u _ (send_to-Inert (utack_header (byte_at bs 3) (word_at bs 4)) t)
          (send_retry-Inert _ u))

  -- What has to hold for a datagram to start a handshake: the address has none, the byte that the
  -- datagram is routed by, its third if it begins like a UTACK and else its fourth, is the type of a
  -- HELLO, it has 66 bytes, of which the last 16 are the cookie that the server gave the address in
  -- this half minute or the one before, whatever the magic number and the other bytes are, the
  -- address is not locked out and has fewer than three handshakes in progress, and there are
  -- fewer than two for each connection that the server allows.
  pub record Admits (s : Server) : Type 0 where
    pub unknown : get addr_eq addr s.udp_handshakes ≡ none
    pub hello_type : datagram_type bs ≡ some 1
    pub with_cookie : length bs ≡ 66
    pub right_cookie :
        (take 16 (drop 50 bs) ≡ cookie_at p c failures bs addr c.bucket s.cookie_secret)
        ⊎ (take 16 (drop 50 bs) ≡ cookie_at p c failures bs addr (c.bucket - 1) s.cookie_secret)
    pub unlocked : locked_out c.now (lookup addr.host failures) ≡ false
    pub few_here : count_of addr.host s.udp_in_progress_handshakes < 3
    pub few : length s.udp_handshakes < s.max_connections * 2

  pub has_cookie-cases :
      (secret : Bytes)
      → has_cookie p c failures bs addr secret ≡ true
      → (take 16 (drop 50 bs) ≡ cookie_at p c failures bs addr c.bucket secret)
        ⊎ (take 16 (drop 50 bs) ≡ cookie_at p c failures bs addr (c.bucket - 1) secret)
  has_cookie-cases secret h =
      elim (Bool-cases
        (bytes_eq (take 16 (drop 50 bs)) (cookie_at p c failures bs addr c.bucket secret))) [
          | inl now ↦ inl (eq_of_bytes_eq _ _ now)
          | inr before ↦ inr (eq_of_bytes_eq _ _ (ground arith))
        ]

  -- The same, as the tests of the code come out.
  pub record Passes (s : Server) : Type 0 where
    pub cookie : has_cookie p c failures bs addr s.cookie_secret ≡ true
    pub unlocked : locked_out c.now (lookup addr.host failures) ≡ false
    pub few_here : leb 3 (count_of addr.host s.udp_in_progress_handshakes) ≡ false
    pub few : leb (s.max_connections * 2) (length s.udp_handshakes) ≡ false

  limit-cases :
      (s : Server)
      → has_cookie p c failures bs addr s.cookie_secret ≡ true
      → (limit_handshakes p c failures bs addr s ≡ s)
        ⊎ (Passes s
            × (limit_handshakes p c failures bs addr s ≡ start_handshake p c failures bs addr s))
  unfolding limit_handshakes
  limit-cases s h = elim (Bool-cases (locked_out c.now (lookup addr.host failures))) [
    | inl locked ↦ inl (simp locked)
    | inr free ↦ elim (Bool-cases (leb 3 (count_of addr.host s.udp_in_progress_handshakes))) [
      | inl many ↦ inl (simp (free, many))
      | inr few_here ↦ elim (Bool-cases (leb (s.max_connections * 2) (length s.udp_handshakes))) [
        | inl full ↦ inl (simp (free, few_here, full))
        | inr few ↦ inr (
          record { cookie = h; unlocked = free; few_here = few_here; few = few },
          simp (free, few_here, few),
        )
      ]
    ]
  ]

  pub hello-cases :
      (s : Server)
      → Inert s (first_hello p c failures bs addr s)
        ⊎ (Passes s
            × (length bs ≡ 66)
            × (first_hello p c failures bs addr s ≡ start_handshake p c failures bs addr s))
  unfolding first_hello
  hello-cases s = elim (Bool-cases (length bs == 50)) [
    | inl bare ↦ inl (rw bare (issue_cookie-Inert s _ (allow_udp_cookie-Inert c.now addr.host s)))
    | inr other ↦ elim (Bool-cases (length bs == 66)) [
      | inr bad ↦ inl (rw (other, bad) (Inert-refl s))
      | inl long ↦ elim (Bool-cases (has_cookie p c failures bs addr s.cookie_secret)) [
        | inr wrong ↦ inl (rw (other, long, wrong) (Inert-refl s))
        | inl right ↦ elim (limit-cases s right) [
          | inl e ↦ inl (rw (other, long, right, e) (Inert-refl s))
          | inr (passes, e) ↦ inr (passes, ground arith, rw (other, long, right) e)
        ]
      ]
    ]
  ]
