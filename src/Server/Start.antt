-- ===== src/Server/Start.antt =====
-- A datagram starts a handshake exactly under the conditions of `Admits`.
use usmp_python.Prelude.{
  ℕ, ◌-◌, ◌*◌, ◌≡◌, refl, true, Option, none, some, List, [], ◌∷◌, ◌++◌, ◌⊎◌, ◌↔◌, inl, inr, arith,
  ap, ◌∙◌, sym, ltb, ◌==◌, length, length-append, take, drop, bytes_eq, bytes_eq_refl, Bool-cases,
  lt→leb,
}
use usmp_python.Types.{Bytes}
use usmp_python.Crypto.{Primitives}
use usmp_python.Handshake.Limiter.{Failures}
use usmp_python.Server.Dict.{get}
use usmp_python.Server.State.{Addr, addr_eq, Connection, Server, count_of}
use usmp_python.Server.Listener.{
  Clock, datagram_type, feed_stream, cookie_at, has_cookie, start_handshake, limit_handshakes,
  first_hello, route_handshake, route, handle_udp_datagram,
}
use usmp_python.Server.Admit.{
  Inert, Inert-refl, Admits, Passes, has_cookie-cases, hello-cases, feed_stream-Inert,
  feed_found-Inert,
}

module _ (p : Primitives) (c : Clock) (failures : Failures) (bs : Bytes) (addr : Addr) where
  abbrev pub Starts : Server → Server → Type 0
  Starts s s' =
      Inert s s' ⊎ (Admits p c failures bs addr s × (s' ≡ start_handshake p c failures bs addr s))

  passed :
      (s : Server)
      → get addr_eq addr s.udp_handshakes ≡ none
      → datagram_type bs ≡ some 1
      → length bs ≡ 66
      → Passes p c failures bs addr s
      → Admits p c failures bs addr s
  passed s new hello long t = record {
    unknown = new;
    hello_type = hello;
    with_cookie = long;
    right_cookie = has_cookie-cases p c failures bs addr s.cookie_secret t.cookie;
    unlocked = t.unlocked;
    few_here = ground (arith, t.few_here);
    few = ground (arith, t.few);
  }

  route_handshake-Starts :
      (type_ : ℕ) (o : Option ℕ) (s : Server)
      → datagram_type bs ≡ some type_
      → get addr_eq addr s.udp_handshakes ≡ o
      → Starts s (route_handshake p c failures bs addr type_ o s)
  route_handshake-Starts type_ (some h) s e g = inl (feed_stream-Inert p c failures bs addr h s)
  route_handshake-Starts type_ none s e g = elim (Bool-cases (type_ == 1)) [
    | inr other ↦ rw other (inl (Inert-refl s))
    | inl hello ↦ elim (hello-cases p c failures bs addr s) [
      | inl i ↦ rw hello (inl i)
      | inr (t, long, started) ↦
          rw hello (inr (passed s g (e ∙ ap some (ground arith)) long t, started))
    ]
  ]

  route-Starts :
      (o : Option ℕ) (s : Server) → datagram_type bs ≡ o → Starts s (route p c failures bs addr o s)
  route-Starts none s e = inl (feed_found-Inert p c failures bs addr _ s)
  route-Starts (some type_) s e = elim (Bool-cases (ltb type_ 5)) [
    | inl shake ↦
        rw shake (route_handshake-Starts type_ (get addr_eq addr s.udp_handshakes) s e refl)
    | inr session ↦ rw session (inl (feed_found-Inert p c failures bs addr _ s))
  ]

  pub handle_udp_datagram-Starts :
      (s : Server) → Starts s (handle_udp_datagram p c failures bs addr s)
  unfolding handle_udp_datagram
  handle_udp_datagram-Starts s = route-Starts (datagram_type bs) s refl

  cookie-right :
      (secret : Bytes)
      → (take 16 (drop 50 bs) ≡ cookie_at p c failures bs addr c.bucket secret)
        ⊎ (take 16 (drop 50 bs) ≡ cookie_at p c failures bs addr (c.bucket - 1) secret)
      → has_cookie p c failures bs addr secret ≡ true
  cookie-right secret (inl now) =
      let here : bytes_eq (take 16 (drop 50 bs)) (cookie_at p c failures bs addr c.bucket secret)
          ≡ true =
        rw now (bytes_eq_refl (cookie_at p c failures bs addr c.bucket secret)) in
      ground (arith, here)
  cookie-right secret (inr before) =
      let here : bytes_eq (take 16 (drop 50 bs))
            (cookie_at p c failures bs addr (c.bucket - 1) secret)
          ≡ true =
        rw before (bytes_eq_refl (cookie_at p c failures bs addr (c.bucket - 1) secret)) in
      ground (arith, here)

  first_hello-start :
      (s : Server)
      → Admits p c failures bs addr s
      → first_hello p c failures bs addr s ≡ start_handshake p c failures bs addr s
  unfolding first_hello limit_handshakes
  first_hello-start s a = simp (
    a.with_cookie,
    cookie-right s.cookie_secret a.right_cookie,
    a.unlocked,
    lt→leb (count_of addr.host s.udp_in_progress_handshakes) 3 a.few_here,
    lt→leb (length s.udp_handshakes) (s.max_connections * 2) a.few,
  )

  pub admitted_starts :
      (s : Server)
      → Admits p c failures bs addr s
      → handle_udp_datagram p c failures bs addr s ≡ start_handshake p c failures bs addr s
  unfolding handle_udp_datagram
  admitted_starts s a =
      ap (λ o. route p c failures bs addr o s) a.hello_type
      ∙ ap (λ o. route_handshake p c failures bs addr 1 o s) a.unknown
      ∙ first_hello-start s a

  start_handshake-tasks :
      (s : Server)
      → (start_handshake p c failures bs addr s).tasks
        ≡ s.tasks ++ (record { addr = addr; stream = length s.streams } ∷ [])
  unfolding start_handshake feed_stream
  start_handshake-tasks s = refl

  no_longer : (xs : List Connection) (x : Connection) → xs ≡ xs ++ (x ∷ []) → ⊥
  no_longer xs x e = omega (arith, ap length e, length-append xs (x ∷ []))

  -- The listener creates a stream and a task for a datagram exactly if the address has no handshake,
  -- the byte that the datagram is routed by is the type of a HELLO, it has 66 bytes, of which the last
  -- 16 are a cookie that the server made for this very address in this half minute or the one before,
  -- the address is not locked out and is below its limit of three handshakes, and the server is below
  -- its own. That byte is the third of a datagram that begins like a UTACK and the fourth of any
  -- other; neither the magic number nor the rest has to be that of a HELLO. Any other datagram changes no counter, no dictionary
  -- of streams, and starts no task.
  pub handle_udp_datagram-Admits :
      (s : Server)
      → Starts s (handle_udp_datagram p c failures bs addr s)
        × (Admits p c failures bs addr s ↔ (
            (handle_udp_datagram p c failures bs addr s).tasks
            ≡ s.tasks ++ (record { addr = addr; stream = length s.streams } ∷ [])))
  handle_udp_datagram-Admits s = (handle_udp_datagram-Starts s, (to_tasks, from_tasks))
    where
      to_tasks :
          Admits p c failures bs addr s
          → (handle_udp_datagram p c failures bs addr s).tasks
            ≡ s.tasks ++ (record { addr = addr; stream = length s.streams } ∷ [])
      to_tasks a = ap (λ t. t.tasks) (admitted_starts s a) ∙ start_handshake-tasks s

      from_tasks :
          (handle_udp_datagram p c failures bs addr s).tasks
            ≡ s.tasks ++ (record { addr = addr; stream = length s.streams } ∷ [])
          → Admits p c failures bs addr s
      from_tasks grown = elim (handle_udp_datagram-Starts s) [
        | inl i ↦ absurd (no_longer s.tasks _ (sym i.same_tasks ∙ grown))
        | inr (a, e) ↦ a
      ]
