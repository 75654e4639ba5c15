-- ===== src/Server/Balance.antt =====
-- `_on_transport_connect` takes back what it counted, whatever happens in between.
use usmp_python.Prelude.{
  ◌≡◌, refl, Bool, true, false, Option, List, [], ◌∷◌, ◌++◌, subst, if◌then◌else◌,
}
use usmp_python.Errors.{Result, ok, err}
use usmp_python.Types.{Bytes, SessionInfo}
use usmp_python.Crypto.{Primitives}
use usmp_python.Handshake.Psk.{PskSource}
use usmp_python.Handshake.State.{Wire}
use usmp_python.Server.State.{Connection, Server}
use usmp_python.Server.Connect.{admit_tcp, finish_tcp, establish_udp}
use usmp_python.Server.Live.{Step, Reach}
use usmp_python.Server.Sound.{world}
use usmp_python.Server.Handle.{
  Handler, Visit, Node, run_handshake, on_tcp_connect, admitted_tcp, on_udp_connect, established,
  shaken_udp,
}

module _ (p : Primitives) (psk : PskSource) (handler : Option Handler) (v : Visit) where
  comes :
      (n : Node) (t w : List Bytes) (r : Bool × Server)
      → admit_tcp v.ip n.server ≡ r
      → Step p (world n.server t w) (world r.1 (if r.0 then v.ip ∷ t else t) w)
  comes n t w r e =
      subst (λ x. Step p (world n.server t w) (world x.1 (if x.0 then v.ip ∷ t else t) w)) e
        (Step.tcp_comes v.ip n.server t w)

  admitted-Reach :
      (n : Node) (t w : List Bytes) (r : Bool × Server)
      → admit_tcp v.ip n.server ≡ r
      → Reach p (world n.server t w) (world (admitted_tcp p psk handler v n r).2.server t w)
  admitted-Reach n t w (false, s) e =
      Reach.step _ (world s t w) _ (comes n t w (false, s) e) (Reach.stay _)
  admitted-Reach n t w (true, s) e =
      Reach.step _ (world s (v.ip ∷ t) w) _ (comes n t w (true, s) e) (
        Reach.step _ (world (finish_tcp v.ip s) t w) _ (Step.tcp_ends v.ip s [] t w) (Reach.stay _))

  established-Reach :
      (c : Connection) (s : Server) (info : SessionInfo) (o : Wire) (t xs ys : List Bytes)
      (r : Bool × Server)
      → establish_udp c s ≡ r
      → Reach p
          (world s t (xs ++ (c.addr.host ∷ ys)))
          (world (established p psk handler v c (info, o) r).2.server t (xs ++ ys))
  established-Reach c s info o t xs ys (false, s') e =
      Reach.step _ (world s' t (xs ++ ys)) _
        (subst (λ x. Step p (world s t (xs ++ (c.addr.host ∷ ys))) (world x.1 t (xs ++ ys))) e
          (Step.udp_established c s t xs ys))
        (Reach.step _ _ _ (Step.udp_ends c s' t (xs ++ ys)) (Reach.stay _))
  established-Reach c s info o t xs ys (true, s') e =
      Reach.step _ (world s' t (xs ++ ys)) _
        (subst (λ x. Step p (world s t (xs ++ (c.addr.host ∷ ys))) (world x.1 t (xs ++ ys))) e
          (Step.udp_established c s t xs ys))
        (Reach.step _ _ _ (Step.udp_ends c s' t (xs ++ ys)) (Reach.stay _))

  shaken-Reach :
      (c : Connection) (s : Server) (o : Result SessionInfo × Wire) (t xs ys : List Bytes)
      → Reach p
          (world s t (xs ++ (c.addr.host ∷ ys)))
          (world (shaken_udp p psk handler v c s o).2.server t (xs ++ ys))
  shaken-Reach c s (err e, o) t xs ys = Reach.step _ _ _ (Step.udp_fails c s t xs ys) (Reach.stay _)
  shaken-Reach c s (ok info, o) t xs ys =
      established-Reach c s info o t xs ys (establish_udp c s) refl

  -- A whole call of `_on_transport_connect` is a run of the server that ends with the connections
  -- that it began with: over TCP nothing is left of the connection, admitted or not, and over UDP the
  -- handshake that the listener counted is not in progress any more, whatever the handshake and the
  -- session handler come to.
  pub on_connect-Reach :
      (n : Node) (c : Connection) (t w xs ys : List Bytes)
      → Reach p (world n.server t w) (world (on_tcp_connect p psk handler v n).2.server t w)
        × Reach p
            (world n.server t (xs ++ (c.addr.host ∷ ys)))
            (world (on_udp_connect p psk handler v c n).2.server t (xs ++ ys))
  unfolding on_tcp_connect on_udp_connect
  on_connect-Reach n c t w xs ys = (
    admitted-Reach n t w (admit_tcp v.ip n.server) refl,
    shaken-Reach c n.server (run_handshake p psk handler v n.failures) t xs ys,
  )
