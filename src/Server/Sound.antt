-- ===== src/Server/Sound.antt =====
-- The counters of a server stay exact and within the limits, whatever happens.
use usmp_python.Prelude.{
  ℕ, suc, ◌+◌, ◌≤◌, ◌<◌, ◌≡◌, refl, true, false, List, ◌∷◌, ◌++◌, ◌⊎◌, inl, inr, arith, ◌∙◌, sym,
  subst, leb, if◌then◌else◌, length, length-append, bytes_eq, Bool-cases, eq_of_bytes_eq,
}
use usmp_python.Types.{Bytes}
use usmp_python.Server.Dict.{put}
use usmp_python.Server.State.{Server, count_of, total}
use usmp_python.Server.Connect.{admit_tcp, finish_tcp}
use usmp_python.Server.Counts.{count, Counted, raise-Counted, lower-Counted, count-split}
use usmp_python.Server.Live.{World, IsSound}

abbrev pub world : Server → List Bytes → List Bytes → World
world s t w = record { server = s; tcp = t; shaking = w }

-- One more, and one less, in a list that is bounded at every address.
pub count-more :
    (n : ℕ) (ip : Bytes) (xs : List Bytes)
    → count ip xs < n
    → ((k : Bytes) → count k xs ≤ n)
    → (k : Bytes) → count k (ip ∷ xs) ≤ n
unfolding count
count-more n ip xs few h k = elim (Bool-cases (bytes_eq k ip)) [
  | inl here ↦ rw here (subst (λ y. suc (count y xs) ≤ n) (sym (eq_of_bytes_eq k ip here)) few)
  | inr other ↦ rw other (h k)
]

pub count-less :
    (n : ℕ) (ip : Bytes) (xs ys : List Bytes)
    → ((k : Bytes) → count k (xs ++ (ip ∷ ys)) ≤ n)
    → (k : Bytes) → count k (xs ++ ys) ≤ n
count-less n ip xs ys h k = elim (Bool-cases (bytes_eq k ip)) [
  | inl here ↦
      let e : count k (xs ++ (ip ∷ ys)) ≡ suc (count k (xs ++ ys)) =
        count-split k ip xs ys ∙ rw here refl in
      omega (arith, h k)
  | inr other ↦
      let e : count k (xs ++ (ip ∷ ys)) ≡ count k (xs ++ ys) =
        count-split k ip xs ys ∙ rw other refl in
      omega (arith, h k)
]

-- What the steps of UDP leave alone.
pub record Stable (s s' : Server) : Type 0 where
  pub same_max : s'.max_connections ≡ s.max_connections
  pub same_max_per_ip : s'.max_connections_per_ip ≡ s.max_connections_per_ip
  pub same_tcp : s'.tcp_connections ≡ s.tcp_connections

pub by_udp :
    (s s' : Server) (t w w' : List Bytes)
    → Stable s s'
    → IsSound (world s t w)
    → Counted s'.udp_in_progress_handshakes w'
    → ((k : Bytes) → count k w' ≤ 3)
    → length s'.udp_sessions ≤ s.max_connections
    → IsSound (world s' t w')
by_udp s s' t w w' k i counted bounded sessions = record {
  tcp_counted = subst (λ d. Counted d t) (sym k.same_tcp) i.tcp_counted;
  tcp_bounded = subst (λ n. length t ≤ n) (sym k.same_max) i.tcp_bounded;
  tcp_bounded_here =
      subst (λ n. (ip : Bytes) → count ip t ≤ n) (sym k.same_max_per_ip) i.tcp_bounded_here;
  shaking_counted = counted;
  shaking_bounded = bounded;
  sessions_bounded = subst (λ n. length s'.udp_sessions ≤ n) (sym k.same_max) sessions;
}

admit_tcp-cases :
    (ip : Bytes) (s : Server)
    → (admit_tcp ip s ≡ (false, s))
      ⊎ ((total s.tcp_connections < s.max_connections)
          × (count_of ip s.tcp_connections < s.max_connections_per_ip)
          × (admit_tcp ip s ≡ (
            true,
            record s {
              tcp_connections =
                  put bytes_eq ip (count_of ip s.tcp_connections + 1) s.tcp_connections;
            },
          )))
unfolding admit_tcp
admit_tcp-cases ip s = elim (Bool-cases (leb s.max_connections (total s.tcp_connections))) [
  | inl full ↦ inl (simp full)
  | inr room ↦ elim (Bool-cases (leb s.max_connections_per_ip (count_of ip s.tcp_connections))) [
    | inl full_here ↦ inl (simp (room, full_here))
    | inr room_here ↦ inr (ground arith, ground arith, simp (room, room_here))
  ]
]

pub tcp_comes-IsSound :
    (ip : Bytes) (s : Server) (t w : List Bytes)
    → IsSound (world s t w)
    → IsSound (world (admit_tcp ip s).1 (if (admit_tcp ip s).0 then ip ∷ t else t) w)
unfolding count
tcp_comes-IsSound ip s t w i = elim (admit_tcp-cases ip s) [
  | inl e ↦ rw e i
  | inr (room, room_here, e) ↦ rw e (record {
    tcp_counted = raise-Counted ip s.tcp_connections t i.tcp_counted;
    tcp_bounded = omega (arith, i.tcp_counted.whole, room);
    tcp_bounded_here =
        count-more s.max_connections_per_ip ip t (omega (arith, i.tcp_counted.each ip, room_here))
          i.tcp_bounded_here;
    shaking_counted = i.shaking_counted;
    shaking_bounded = i.shaking_bounded;
    sessions_bounded = i.sessions_bounded;
  })
]

pub tcp_ends-IsSound :
    (ip : Bytes) (s : Server) (xs ys w : List Bytes)
    → IsSound (world s (xs ++ (ip ∷ ys)) w)
    → IsSound (world (finish_tcp ip s) (xs ++ ys) w)
unfolding finish_tcp
tcp_ends-IsSound ip s xs ys w i = record {
  tcp_counted = lower-Counted ip s.tcp_connections xs ys i.tcp_counted;
  tcp_bounded = omega (arith, length-append xs (ip ∷ ys), length-append xs ys, i.tcp_bounded);
  tcp_bounded_here = count-less s.max_connections_per_ip ip xs ys i.tcp_bounded_here;
  shaking_counted = i.shaking_counted;
  shaking_bounded = i.shaking_bounded;
  sessions_bounded = i.sessions_bounded;
}
