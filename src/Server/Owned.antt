-- ===== src/Server/Owned.antt =====
-- The dictionaries of handshakes and of sessions, and which of their entries lead to the stream of a
-- connection, through `establish_udp`.
use usmp_python.Prelude.{
  ℕ, ◌≡◌, false, Option, none, some, ◌∙◌, sym, Bool-cases, inl, inr, arith, length, leb,
  bytes_eq_refl, eq_of_bytes_eq, ◌⊎◌,
}
use usmp_python.Types.{Bytes}
use usmp_python.Server.Dict.{
  Dict, IsEquality, IsUnique, get, put, pop, get-pop_other, get-put_other, pop-IsUnique,
  put-IsUnique,
}
use usmp_python.Server.State.{Addr, addr_eq, Connection, Server, lower, close_stream}
use usmp_python.Server.Connect.{establish_udp, sessions_of}

pub addr_eq-IsEquality : IsEquality addr_eq
addr_eq-IsEquality = record {
  same = λ a. ground (arith, bytes_eq_refl a.host);
  equal = λ a b h. ground (arith, eq_of_bytes_eq a.host b.host);
}

pub record IsTidy (s : Server) : Type 0 where
  pub unique_handshakes : IsUnique addr_eq s.udp_handshakes
  pub unique_sessions : IsUnique addr_eq s.udp_sessions

-- Only the address of the connection leads to its stream.
abbrev pub IsOwn : Connection → Dict Addr ℕ → Type 0
IsOwn c d = (a : Addr) → get addr_eq a d ≡ some c.stream → a ≡ c.addr

pub record IsOwned (c : Connection) (s : Server) : Type 0 where
  pub own_handshake : IsOwn c s.udp_handshakes
  pub own_session : IsOwn c s.udp_sessions

pub same-cases : (a b : Addr) → (a ≡ b) ⊎ (addr_eq a b ≡ false)
same-cases a b = elim (Bool-cases (addr_eq a b)) [
  | inl same ↦ inl (addr_eq-IsEquality.equal a b same)
  | inr other ↦ inr other
]

close_stream-IsOwned :
    (o : Option ℕ) (c : Connection) (s : Server) → IsOwned c s → IsOwned c (close_stream o s)
close_stream-IsOwned none c s h = h
close_stream-IsOwned (some x) c s h = record {
  own_handshake = h.own_handshake;
  own_session = h.own_session;
}

pop-IsOwn : (c : Connection) (d : Dict Addr ℕ) → IsOwn c d → IsOwn c (pop addr_eq c.addr d)
pop-IsOwn c d own a h = elim (same-cases a c.addr) [
  | inl here ↦ here
  | inr other ↦ own a (sym (get-pop_other addr_eq addr_eq-IsEquality c.addr a d other) ∙ h)
]

pub put-IsOwn :
    (c : Connection) (d : Dict Addr ℕ) → IsOwn c d → IsOwn c (put addr_eq c.addr c.stream d)
put-IsOwn c d own a h = elim (same-cases a c.addr) [
  | inl here ↦ here
  | inr other ↦ own a (sym (get-put_other addr_eq addr_eq-IsEquality c.addr a c.stream d other) ∙ h)
]

close_stream-IsTidy : (o : Option ℕ) (s : Server) → IsTidy s → IsTidy (close_stream o s)
close_stream-IsTidy none s t = t
close_stream-IsTidy (some h) s t = record {
  unique_handshakes = t.unique_handshakes;
  unique_sessions = t.unique_sessions;
}

entered-IsTidy :
    (c : Connection) (s s' : Server)
    → IsTidy s
    → IsTidy (record s' {
      udp_sessions = put addr_eq c.addr c.stream s.udp_sessions;
      udp_handshakes = pop addr_eq c.addr s.udp_handshakes;
    })
entered-IsTidy c s s' t = record {
  unique_handshakes =
      pop-IsUnique addr_eq addr_eq-IsEquality c.addr s.udp_handshakes t.unique_handshakes;
  unique_sessions =
      put-IsUnique addr_eq addr_eq-IsEquality c.addr c.stream s.udp_sessions t.unique_sessions;
}

lowered-IsTidy :
    (s : Server) (d : Dict Bytes ℕ)
    → IsTidy s
    → IsTidy (record s { udp_in_progress_handshakes = d })
lowered-IsTidy s d t = record {
  unique_handshakes = t.unique_handshakes;
  unique_sessions = t.unique_sessions;
}

pub establish_udp-IsTidy : (c : Connection) (s : Server) → IsTidy s → IsTidy (establish_udp c s).1
unfolding establish_udp
establish_udp-IsTidy c s t = elim (Bool-cases (leb s.max_connections (length s.udp_sessions))) [
  | inl full ↦ rw full (close_stream-IsTidy (some c.stream) _ (lowered-IsTidy s _ t))
  | inr space ↦
      elim (Bool-cases (leb s.max_connections_per_ip (sessions_of c.addr.host s.udp_sessions))) [
        | inl full_here ↦
            rw (space, full_here) (close_stream-IsTidy (some c.stream) _ (lowered-IsTidy s _ t))
        | inr space_here ↦
            rw (space, space_here)
              (entered-IsTidy c s (close_stream (get addr_eq c.addr s.udp_sessions) lowered) t)
      ]
]
  where
    lowered : Server
    lowered = record s {
      udp_in_progress_handshakes = lower c.addr.host s.udp_in_progress_handshakes;
    }

pub establish_udp-IsOwned :
    (c : Connection) (s : Server) → IsOwned c s → IsOwned c (establish_udp c s).1
unfolding establish_udp
establish_udp-IsOwned c s o = elim (Bool-cases (leb s.max_connections (length s.udp_sessions))) [
  | inl full ↦ rw full (close_stream-IsOwned (some c.stream) c lowered as_before)
  | inr space ↦
      elim (Bool-cases (leb s.max_connections_per_ip (sessions_of c.addr.host s.udp_sessions))) [
        | inl full_here ↦
            rw (space, full_here) (close_stream-IsOwned (some c.stream) c lowered as_before)
        | inr space_here ↦
            rw (space, space_here)
              (record {
                own_handshake = pop-IsOwn c s.udp_handshakes o.own_handshake;
                own_session = put-IsOwn c s.udp_sessions o.own_session;
              })
      ]
]
  where
    lowered : Server
    lowered = record s {
      udp_in_progress_handshakes = lower c.addr.host s.udp_in_progress_handshakes;
    }

    as_before : IsOwned c lowered
    as_before = record { own_handshake = o.own_handshake; own_session = o.own_session }
