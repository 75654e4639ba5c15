-- ===== src/Server/Release.antt =====
-- What is left of a UDP connection when its task has ended.
use usmp_python.Prelude.{
  ℕ, ◌≡◌, ◌≢◌, refl, Bool, true, false, Option, none, some, ◌∙◌, sym, Bool-cases, inl, inr, arith,
  ◌==◌, none≢some, true≢false, ap,
}
use usmp_python.Errors.{Result, ok, err}
use usmp_python.Types.{SessionInfo}
use usmp_python.Crypto.{Primitives}
use usmp_python.Handshake.Psk.{PskSource}
use usmp_python.Handshake.State.{Wire}
use usmp_python.Server.Dict.{Dict, IsUnique, get, get-pop, get-pop_other}
use usmp_python.Server.State.{Addr, addr_eq, Connection, Server}
use usmp_python.Server.Connect.{establish_udp, finish_udp, pop_held}
use usmp_python.Server.Stop.{IsShut, update-IsShut}
use usmp_python.Server.Handle.{
  Handler, Visit, Node, run_handshake, on_udp_connect, established, shaken_udp,
}
use usmp_python.Server.Owned.{
  addr_eq-IsEquality, IsTidy, IsOwn, IsOwned, same-cases, establish_udp-IsTidy,
  establish_udp-IsOwned,
}

-- No dictionary leads from any address to the stream, and it is closed.
pub record Released (c : Connection) (s : Server) : Type 0 where
  pub no_handshake : (a : Addr) → get addr_eq a s.udp_handshakes ≢ some c.stream
  pub no_session : (a : Addr) → get addr_eq a s.udp_sessions ≢ some c.stream
  pub shut : IsShut s.streams c.stream

pub pop_held-gone :
    (c : Connection) (d : Dict Addr ℕ) (o : Option ℕ)
    → get addr_eq c.addr d ≡ o
    → IsUnique addr_eq d
    → get addr_eq c.addr (pop_held o c d) ≢ some c.stream
pop_held-gone c d none e u = λ h. none≢some (sym e ∙ h)
pop_held-gone c d (some h) e u = elim (Bool-cases (h == c.stream)) [
  | inl mine ↦ rw mine (λ k. none≢some (sym (get-pop addr_eq addr_eq-IsEquality c.addr d u) ∙ k))
  | inr other ↦ rw other (λ k. apart other (sym e ∙ k))
]
  where
    apart : (h == c.stream) ≡ false → some h ≡ some c.stream → ⊥
    apart other k = ground arith

pop_held-other :
    (c : Connection) (d : Dict Addr ℕ) (o : Option ℕ) (a : Addr)
    → addr_eq a c.addr ≡ false
    → get addr_eq a (pop_held o c d) ≡ get addr_eq a d
pop_held-other c d none a other = refl
pop_held-other c d (some h) a other = elim (Bool-cases (h == c.stream)) [
  | inl mine ↦ rw mine (get-pop_other addr_eq addr_eq-IsEquality c.addr a d other)
  | inr not_mine ↦ rw not_mine refl
]

pop_held-nowhere :
    (c : Connection) (d : Dict Addr ℕ)
    → IsUnique addr_eq d
    → IsOwn c d
    → (a : Addr) → get addr_eq a (pop_held (get addr_eq c.addr d) c d) ≢ some c.stream
pop_held-nowhere c d u own a = elim (same-cases a c.addr) [
  | inl here ↦ rw here (pop_held-gone c d (get addr_eq c.addr d) refl u)
  | inr other ↦ λ h.
      let here = own a (sym (pop_held-other c d _ a other) ∙ h) in
      true≢false (sym (addr_eq-IsEquality.same a) ∙ ap (addr_eq a) here ∙ other)
]

finish_udp-Released :
    (b : Bool) (c : Connection) (s : Server)
    → IsTidy s
    → IsOwned c s
    → Released c (finish_udp b c s)
unfolding finish_udp
finish_udp-Released b c s t o = record {
  no_handshake = pop_held-nowhere c s.udp_handshakes t.unique_handshakes o.own_handshake;
  no_session = pop_held-nowhere c s.udp_sessions t.unique_sessions o.own_session;
  shut = update-IsShut c.stream s.streams;
}

module _ (p : Primitives) (psk : PskSource) (handler : Option Handler) (v : Visit) where
  shaken-Released :
      (c : Connection) (s : Server) (o : Result SessionInfo × Wire)
      → IsTidy s
      → IsOwned c s
      → Released c (shaken_udp p psk handler v c s o).2.server
        × ((shaken_udp p psk handler v c s o).1.closed ≡ true)
  shaken-Released c s (err e, w) t o = (finish_udp-Released false c s t o, refl)
  shaken-Released c s (ok info, w) t o =
      settled (establish_udp c s) (establish_udp-IsTidy c s t) (establish_udp-IsOwned c s o)
    where
      settled :
          (r : Bool × Server)
          → IsTidy r.1
          → IsOwned c r.1
          → Released c (established p psk handler v c (info, w) r).2.server
            × ((established p psk handler v c (info, w) r).1.closed ≡ true)
      settled (false, s') k o = (finish_udp-Released true c s' k o, refl)
      settled (true, s') k o = (finish_udp-Released true c s' k o, refl)

  -- When the task of a UDP connection has ended, whatever the handshake and the session handler came
  -- to and whether it was admitted as a session or not, no dictionary of the server leads from any
  -- address to its stream any more, and its stream and its transport are closed. Before, the
  -- dictionaries hold no address twice, and no address but that of the connection leads to its stream.
  pub on_udp_connect-Released :
      (c : Connection) (n : Node)
      → IsTidy n.server
      → IsOwned c n.server
      → Released c (on_udp_connect p psk handler v c n).2.server
        × ((on_udp_connect p psk handler v c n).1.closed ≡ true)
  unfolding on_udp_connect
  on_udp_connect-Released c n t o =
      shaken-Released c n.server (run_handshake p psk handler v n.failures) t o
