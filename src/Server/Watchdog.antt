-- ===== src/Server/Watchdog.antt =====
-- `_watchdog` of src/usmp/_server.py: the task that closes a session in which nothing comes in. Its
-- clock counts a unit in which half the session timeout is a whole number; `last_recv` gives for
-- a time the value that `_last_recv` of the session has then. The server's `on_timeout` is an
-- argument, as what a call of it comes to.
use usmp_python.Prelude.{
  ℕ, ◌+◌, ◌*◌, ◌≤◌, ◌<◌, ◌≡◌, refl, Option, none, some, List, [], ◌∷◌, ◌⊎◌, inl, inr, arith, ltb,
  if◌then◌else◌, ap, Any, Bool-cases, ◌∙◌,
}

-- A call of `on_timeout` returns or raises an exception, which is logged, after so long; or it never
-- returns to the watchdog, be it that it waits for good or that both are cancelled in it.
pub data Callback : Type 0 where
  ends_after : ℕ → Callback
  hangs : Callback

pub data Act : Type 0 where
  call_on_timeout close_transport : Act

-- What the watchdog does, and when, once it has seen the timeout: the call is awaited before the
-- transport is closed.
abbrev pub closing_acts : Option Callback → ℕ → List (ℕ × Act)
closing_acts none now = (now, Act.close_transport) ∷ []
closing_acts (some (Callback.ends_after d)) now =
    (now, Act.call_on_timeout) ∷ (now + d, Act.close_transport) ∷ []
closing_acts (some Callback.hangs) now = (now, Act.call_on_timeout) ∷ []

-- When the transport is closed.
abbrev pub closed_at : List (ℕ × Act) → Option ℕ
closed_at [] = none
closed_at ((now, Act.close_transport) ∷ later) = some now
closed_at ((now, Act.call_on_timeout) ∷ later) = closed_at later

-- A call of `on_timeout`, if there is one, ends within this time.
abbrev pub EndsWithin : ℕ → Option Callback → Type 0
EndsWithin slow none = Unit
EndsWithin slow (some (Callback.ends_after d)) = d ≤ slow
EndsWithin slow (some Callback.hangs) = ⊥

module _ (on_timeout : Option Callback) (half : ℕ) (last_recv : ℕ → ℕ) where
  -- The times at which `sleep(interval)` returns; the result is what the watchdog does after it has
  -- left the loop, and nothing if it has not.
  unfoldable pub watchdog : List ℕ → List (ℕ × Act)
  watchdog [] = []
  watchdog (now ∷ later) =
      let rest = watchdog later in
      if ltb (last_recv now + 2 * half) now then closing_acts on_timeout now else rest

  -- A sleep takes at least the interval, and at most `lag` more.
  abbrev pub IsPaced : ℕ → ℕ → List ℕ → Type 0
  IsPaced lag before [] = Unit
  IsPaced lag before (now ∷ later) =
      (before + half ≤ now) × (now ≤ before + half + lag) × IsPaced lag now later

  -- The watchdog leaves its loop at `t`, after more than the session timeout without a frame.
  abbrev pub LeavesAt : List ℕ → ℕ → Type 0
  LeavesAt wakes t = (watchdog wakes ≡ closing_acts on_timeout t) × (last_recv t + 2 * half < t)

  awake-cases :
      (now : ℕ) (later : List ℕ)
      → LeavesAt (now ∷ later) now
        ⊎ ((now ≤ last_recv now + 2 * half) × (watchdog (now ∷ later) ≡ watchdog later))
  unfolding watchdog
  awake-cases now later = elim (Bool-cases (ltb (last_recv now + 2 * half) now)) [
    | inl silent ↦ inl (simp silent, ground arith)
    | inr active ↦ inr (ground arith, simp active)
  ]

  LeavesAt-bound :
      (wakes : List ℕ) (lag before a : ℕ)
      → IsPaced lag before wakes
      → before ≤ a + 2 * half
      → ((t : ℕ) → a ≤ t → last_recv t ≡ a)
      → Any (λ t. a + 2 * half < t) wakes
      → (t : ℕ) × LeavesAt wakes t × (t ≤ a + 2 * half + half + lag)
  LeavesAt-bound [] lag before a paced early idle late = absurd late
  LeavesAt-bound (now ∷ later) lag before a paced early idle late = elim (awake-cases now later) [
    | inl closes ↦ (now, closes, omega (arith, paced.1))
    | inr (active, same) ↦
        let soon = still_early active in
        let (t, (closes, silent), bound) =
          LeavesAt-bound later lag now a paced.2 soon idle (later_wake soon late) in
        (t, (same ∙ closes, silent), bound)
  ]
    where
      still_early : now ≤ last_recv now + 2 * half → now ≤ a + 2 * half
      still_early active = elim (Bool-cases (ltb now a)) [
        | inl sooner ↦ ground arith
        | inr after ↦ let same = idle now (ground arith) in omega (arith, same, active)
      ]

      later_wake :
          now ≤ a + 2 * half
          → (a + 2 * half < now) ⊎ Any (λ t. a + 2 * half < t) later
          → Any (λ t. a + 2 * half < t) later
      later_wake soon (inl past) = absurd (omega (arith, past, soon))
      later_wake soon (inr there) = there

  close-after :
      (slow t : ℕ)
      → EndsWithin slow on_timeout
      → (u : ℕ) × (closed_at (closing_acts on_timeout t) ≡ some u) × (t ≤ u) × (u ≤ t + slow)
  close-after slow t quick = close on_timeout quick
    where
      close :
          (o : Option Callback)
          → EndsWithin slow o
          → (u : ℕ) × (closed_at (closing_acts o t) ≡ some u) × (t ≤ u) × (u ≤ t + slow)
      close none h = (t, refl, omega arith, omega arith)
      close (some (Callback.ends_after d)) h = (t + d, refl, omega arith, omega (arith, h))
      close (some Callback.hangs) h = absurd h

  -- A session that hears nothing after `a` is closed, at the latest half a session timeout, the
  -- delay of one sleep and the time of a call of `on_timeout` after the session timeout has passed,
  -- if the watchdog lives on until then and the call, which is awaited first, ends; and the watchdog
  -- starts on that only after more than the session timeout without a frame.
  pub watchdog-closes :
      (wakes : List ℕ) (lag slow before a : ℕ)
      → IsPaced lag before wakes
      → EndsWithin slow on_timeout
      → before ≤ a + 2 * half
      → ((t : ℕ) → a ≤ t → last_recv t ≡ a)
      → Any (λ t. a + 2 * half < t) wakes
      → (t : ℕ) × LeavesAt wakes t
        × (u : ℕ) × (closed_at (watchdog wakes) ≡ some u)
        × (t ≤ u)
        × (u ≤ a + 2 * half + half + lag + slow)
  watchdog-closes wakes lag slow before a paced quick early idle late =
      let (t, (leaves, silent), bound) = LeavesAt-bound wakes lag before a paced early idle late in
      let (u, closes, after, soon) = close-after slow t quick in
      (t, (leaves, silent), u, ap closed_at leaves ∙ closes, after, omega (arith, bound, soon))

-- A call of `on_timeout` that never ends keeps the transport open for good.
hangs-open :
    (half : ℕ) (last_recv : ℕ → ℕ) (wakes : List ℕ)
    → closed_at (watchdog (some Callback.hangs) half last_recv wakes) ≡ none
unfolding watchdog
hangs-open half last_recv [] = refl
hangs-open half last_recv (now ∷ later) = elim (Bool-cases (ltb (last_recv now + 2 * half) now)) [
  | inl silent ↦ simp silent
  | inr active ↦ simp (active, hangs-open half last_recv later)
]
