-- ===== src/Transport/Registry.antt =====
-- The table of transports, src/usmp/transport/__init__.py. Names are ASCII.
use usmp_python.Prelude.{
  ℕ, ◌+◌, ◌≡◌, ◌&&◌, Option, none, some, [], map, leb, if◌then◌else◌, bytes_eq, bytes_eq_refl,
  eq_of_bytes_eq, ◌∙◌, ap, sym, ◌⊎◌, inl, inr, Bool-cases, true≢false,
}
use usmp_python.Prelude.Texts.{Text, codes}
use usmp_python.Errors.{Result, ok, err, value_error}
use usmp_python.Server.Dict.{Dict, IsEquality, get, put, get-put, get-put_other}

-- `str.lower()`.
abbrev pub to_lower_code : ℕ → ℕ
to_lower_code c = if leb 65 c && leb c 90 then c + 32 else c

unfoldable pub to_lower : Text → Text
to_lower = map to_lower_code

-- The classes: those of the library, and those that a caller registers, by a number.
pub data TransportClass : Type 0 where
  tcp_transport udp_stream : TransportClass
  custom_transport : ℕ → TransportClass

pub data ListenerClass : Type 0 where
  tcp_listener udp_listener : ListenerClass
  custom_listener : ℕ → ListenerClass

pub record Registry : Type 0 where
  pub transports : Dict Text TransportClass
  pub listeners : Dict Text ListenerClass

unfoldable pub register_transport : Text → TransportClass → ListenerClass → Registry → Registry
register_transport name transport_cls listener_cls r = record {
  transports = put bytes_eq (to_lower name) transport_cls r.transports;
  listeners = put bytes_eq (to_lower name) listener_cls r.listeners;
}

abbrev pub or_value_error : {A : Type 0} → Option A → Result A
or_value_error none = err value_error
or_value_error (some a) = ok a

unfoldable pub get_transport_class : Text → Registry → Result TransportClass
get_transport_class name r = or_value_error (get bytes_eq (to_lower name) r.transports)

unfoldable pub get_listener_class : Text → Registry → Result ListenerClass
get_listener_class name r = or_value_error (get bytes_eq (to_lower name) r.listeners)

-- "tcp" and "udp".
abbrev pub tcp : Text
tcp = codes "tcp"

abbrev pub udp : Text
udp = codes "udp"

-- The table once the module is loaded.
unfoldable pub core_protocols : Registry
core_protocols = register_transport udp TransportClass.udp_stream ListenerClass.udp_listener (
    register_transport tcp TransportClass.tcp_transport ListenerClass.tcp_listener
      (record { transports = []; listeners = [] }))

text-IsEquality : IsEquality bytes_eq
text-IsEquality = record { same = bytes_eq_refl; equal = eq_of_bytes_eq }

-- A registration is found under its name in any case, for connecting and for listening, and every
-- other name finds what it found before.
pub get-register_transport :
    (name other : Text) (t : TransportClass) (l : ListenerClass) (r : Registry)
    → let r' = register_transport name t l r in
      ((to_lower other ≡ to_lower name)
        × (get_transport_class other r' ≡ ok t)
        × (get_listener_class other r' ≡ ok l))
      ⊎ ((¬ (to_lower other ≡ to_lower name))
          × (get_transport_class other r' ≡ get_transport_class other r)
          × (get_listener_class other r' ≡ get_listener_class other r))
unfolding register_transport get_transport_class get_listener_class
get-register_transport name other t l r =
    elim (Bool-cases (bytes_eq (to_lower other) (to_lower name))) [
      | inl same ↦ inl (
          let e = eq_of_bytes_eq _ _ same in
          (
            e,
            ap or_value_error (found e t r.transports),
            ap or_value_error (found e l r.listeners),
          ))
      | inr apart ↦ inr (
        λ e.
            true≢false (
              sym (ap (λ x. bytes_eq x (to_lower name)) e ∙ bytes_eq_refl (to_lower name)) ∙ apart),
        ap or_value_error (
            get-put_other bytes_eq text-IsEquality (to_lower name) (to_lower other) t r.transports
              apart),
        ap or_value_error (
            get-put_other bytes_eq text-IsEquality (to_lower name) (to_lower other) l r.listeners
              apart),
      )
    ]
  where
    found :
        {A : Type 0} (e : to_lower other ≡ to_lower name) (a : A) (d : Dict Text A)
        → get bytes_eq (to_lower other) (put bytes_eq (to_lower name) a d) ≡ some a
    found e a d =
        ap (λ k. get bytes_eq k (put bytes_eq (to_lower name) a d)) e
        ∙ get-put bytes_eq text-IsEquality (to_lower name) a d
