-- ===== src/Server/Lifecycle.antt =====
-- `on_session`, `stop` and `serve` of src/usmp/_server.py: when a server starts to listen, and when
-- it stops. The listener's own `start` and the tasks of the connections are arguments.
use usmp_python.Prelude.{
  ℕ, zero, suc, ◌<◌, ◌≡◌, refl, Bool, true, false, Option, none, some, ◌↔◌, ◌⊎◌, inl, inr, arith,
  ap, ◌∙◌, bytes_eq,
}
use usmp_python.Prelude.Texts.{Text}
use usmp_python.Errors.{Result, ok, err, runtime_error, value_error, ◌>>◌}
use usmp_python.Transport.Registry.{
  Registry, ListenerClass, get_listener_class, or_value_error, to_lower,
}
use usmp_python.Server.Dict.{get}
use usmp_python.Server.Handle.{Handler}

-- `_shutdown_event` is `none` before the first call of `serve`, else whether it is set.
pub record Service : Type 0 where
  pub protocol : Text
  pub handler : Option Handler
  pub listener : Option ListenerClass
  pub shutdown_event : Option Bool

unfoldable pub on_session : Handler → Service → Service
on_session fn s = record s { handler = some fn }

abbrev pub set_event : Option Bool → Option Bool
set_event none = none
set_event (some b) = some true

unfoldable pub stop : Service → Service
stop s = record s { shutdown_event = set_event s.shutdown_event }

-- So many calls of `stop`.
unfoldable pub stops : ℕ → Service → Service
stops zero s = s
stops (suc n) s = stops n (stop s)

abbrev pub require_handler : Option Handler → Result (Unit {0})
require_handler none = err runtime_error
require_handler (some handler) = ok tt

-- The class of the listener that `serve` starts.
unfoldable pub choose_listener : Registry → Service → Result ListenerClass
choose_listener r s = require_handler s.handler >> get_listener_class s.protocol r

-- `serve` up to the wait: the calls of `stop` while `start` of the listener is awaited come before
-- the new event. An error leaves what was done before it.
abbrev pub await_start :
    ℕ → ListenerClass → Result (Unit {0}) → Service → Result (Unit {0}) × Service
await_start early cls (err e) s = (err e, stops early (record s { listener = some cls }))
await_start early cls (ok _) s =
    (ok tt, record (stops early (record s { listener = some cls })) { shutdown_event = some false })

abbrev pub start_chosen :
    ℕ → Result (Unit {0}) → Service → Result ListenerClass → Result (Unit {0}) × Service
start_chosen early start s (err e) = (err e, s)
start_chosen early start s (ok cls) = await_start early cls start s

unfoldable pub begin_serve :
    Registry → ℕ → Result (Unit {0}) → Service → Result (Unit {0}) × Service
begin_serve r early start s = start_chosen early start s (choose_listener r s)

-- The wait has ended.
abbrev pub IsStopping : Service → Type 0
IsStopping s = s.shutdown_event ≡ some true

stops-set :
    (n : ℕ) (s : Service) → s.shutdown_event ≡ some true → (stops n s).shutdown_event ≡ some true
unfolding stops stop
stops-set zero s h = h
stops-set (suc n) s h = stops-set n (stop s) (ap set_event h)

-- A call of `stop` after the event was made is enough, and needed.
stops-IsStopping :
    (n : ℕ) (s : Service) → s.shutdown_event ≡ some false → IsStopping (stops n s) ↔ (0 < n)
unfolding stops stop
stops-IsStopping zero s h =
    (λ e. absurd (ground (arith, h, e)), λ less. absurd (omega (arith, less)))
stops-IsStopping (suc n) s h = (λ e. omega arith, λ less. stops-set n (stop s) (ap set_event h))

stops-listener : (n : ℕ) (s : Service) → (stops n s).listener ≡ s.listener
unfolding stops stop
stops-listener zero s = refl
stops-listener (suc n) s = stops-listener n (stop s)

listener-cases :
    (o : Option ListenerClass)
    → (or_value_error o ≡ err value_error) ⊎ ((cls : ListenerClass) × (or_value_error o ≡ ok cls))
listener-cases none = inl refl
listener-cases (some cls) = inr (cls, refl)

handler-cases : (o : Option Handler) → (o ≡ none) ⊎ ((fn : Handler) × (o ≡ some fn))
handler-cases none = inl refl
handler-cases (some fn) = inr (fn, refl)

-- Without a session handler `serve` raises `RuntimeError` and nothing has changed. With one, and a
-- protocol that is not registered, it raises `ValueError` and nothing has changed. With a handler and
-- a registered protocol, when `start` of the listener returns, the server has the listener of its
-- protocol, and stops exactly if `stop` is called after that: the calls before are lost.
pub begin_serve-stops :
    (r : Registry) (early late : ℕ) (s : Service)
    → let (result, s') = begin_serve r early (ok tt) s in
      ((s.handler ≡ none) × (result ≡ err runtime_error) × (s' ≡ s))
      ⊎ ((fn : Handler) × (s.handler ≡ some fn)
          × (get_listener_class s.protocol r ≡ err value_error)
          × (result ≡ err value_error)
          × (s' ≡ s))
      ⊎ ((fn : Handler) × (s.handler ≡ some fn)
          × (cls : ListenerClass) × (get_listener_class s.protocol r ≡ ok cls)
          × (result ≡ ok tt)
          × (s'.listener ≡ some cls)
          × (IsStopping (stops late s') ↔ (0 < late)))
unfolding begin_serve choose_listener get_listener_class
begin_serve-stops r early late s = elim (handler-cases s.handler) [
  | inl missing ↦ inl (missing, rw missing refl, rw missing refl)
  | inr (fn, there) ↦ elim (listener-cases (get bytes_eq (to_lower s.protocol) r.listeners)) [
    | inl unknown ↦
        let c : choose_listener r s ≡ err value_error = simp (there, unknown) in
        let e : begin_serve r early (ok tt) s ≡ (err value_error, s) =
          ap (start_chosen early (ok tt) s) c in
        inr (inl (fn, there, unknown, ap (λ x. x.0) e, ap (λ x. x.1) e))
    | inr (cls, known) ↦
        let c : choose_listener r s ≡ ok cls = simp (there, known) in
        let e : begin_serve r early (ok tt) s ≡ await_start early cls (ok tt) s =
          ap (start_chosen early (ok tt) s) c in
        inr (
          inr (
            fn,
            there,
            cls,
            known,
            ap (λ x. x.0) e,
            ap (λ x. x.1.listener) e ∙ stops-listener early _,
            rw e (stops-IsStopping late _ refl),
          ))
  ]
]
