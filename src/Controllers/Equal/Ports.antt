-- ===== src/Controllers/Equal/Ports.antt =====
-- What portExists of controllers/tor/utils_exist.go finds.
use mathlib.Core.List.{Memᴰ}
use tor_controller.Base.{
  ℕ, String, Bool, true, false, ◌&&◌, ◌||◌, not, ◌≡◌, ◌≢◌, refl, subst, ◌⊎◌, inl, inr, ◌↔◌, List,
  [], ◌∷◌, any, arith, ◌==◌, str_eq, eq_iff, if◌then◌else◌, Bool-cases,
}
use tor_controller.Kube.Types.{ServicePort}
use tor_controller.Controllers.Equal.{matches_port, port_exists}

-- A port serves what a rule asks for: the same protocol, and the same number or the same name, if
-- the port has one.
pub Serves : ServicePort → ServicePort → Type 0
Serves item port =
    (port.protocol ≡ item.protocol)
    × ((port.port ≡ item.port) ⊎ ((port.name ≢ "") × (port.name ≡ item.name)))

by_number_or_name :
    (p n e s : Bool)
    → (if p then (if n then true else not e && s) else false) ≡ true
    → (p ≡ true) × ((n ≡ true) ⊎ ((e ≡ false) × (s ≡ true)))
by_number_or_name p n e s h = ground arith

same_number : (a b : ℕ) → (a == b) ≡ true → a ≡ b
same_number a b h = ground arith

not_empty : (name : String) → str_eq name "" ≡ false → name ≢ ""
not_empty name e p = let q : str_eq name "" ≡ true = (eq_iff name "").1 p in cc

is_not_empty : (name : String) → name ≢ "" → str_eq name "" ≡ false
is_not_empty name n = elim (Bool-cases (str_eq name "")) [
  | inl e ↦ absurd (n ((eq_iff name "").0 e))
  | inr e ↦ e
]

number_or_name :
    (item port : ServicePort)
    → ((port.port == item.port) ≡ true)
      ⊎ ((str_eq port.name "" ≡ false) × (str_eq port.name item.name ≡ true))
    → (port.port ≡ item.port) ⊎ ((port.name ≢ "") × (port.name ≡ item.name))
number_or_name item port (inl n) = inl (same_number port.port item.port n)
number_or_name item port (inr (e, s)) =
    inr (not_empty port.name e, (eq_iff port.name item.name).0 s)

matches-Serves : (item port : ServicePort) → matches_port item port ≡ true → Serves item port
unfolding Serves
matches-Serves item port h =
    let (p, c) =
      by_number_or_name (str_eq port.protocol item.protocol) (port.port == item.port)
        (str_eq port.name "") (str_eq port.name item.name) h in
    ((eq_iff port.protocol item.protocol).0 p, number_or_name item port c)

Serves-matches : (item port : ServicePort) → Serves item port → matches_port item port ≡ true
unfolding Serves
Serves-matches item port (p, inl n) =
    let n' : (port.port == item.port) ≡ true = ground arith in
    rw ((eq_iff port.protocol item.protocol).1 p, n') refl
Serves-matches item port (p, inr (e, s)) =
    rw
      (
        (eq_iff port.protocol item.protocol).1 p,
        is_not_empty port.name e,
        (eq_iff port.name item.name).1 s,
      )
      (either (port.port == item.port))
  where
    either : (b : Bool) → (if b then true else true) ≡ true
    either true = refl
    either false = refl

abbrev pub ServedBy : List ServicePort → ServicePort → Type 0
ServedBy slice item = (port : ServicePort) × Memᴰ port slice × Serves item port

found_served :
    (slice : List ServicePort) (item : ServicePort)
    → port_exists slice item ≡ true
    → ServedBy slice item
unfolding port_exists any
found_served [] item h = absurd (cc)
found_served (p ∷ ps) item h = elim (Bool-cases (matches_port item p)) [
  | inl m ↦ (p, Memᴰ.head refl, matches-Serves item p m)
  | inr n ↦
      let (q, mem, s) = found_served ps item (skipped (matches_port item p) _ n h) in
      (q, Memᴰ.tail mem, s)
]
  where
    skipped : (a b : Bool) → a ≡ false → (a || b) ≡ true → b ≡ true
    skipped a b e h = ground arith

served_found :
    (slice : List ServicePort) (item port : ServicePort)
    → Memᴰ port slice
    → Serves item port
    → port_exists slice item ≡ true
unfolding port_exists any
served_found [] item port m s = elim m [ ]
served_found (p ∷ ps) item port (Memᴰ.head e) s =
    rw (Serves-matches item p (subst (Serves item) e s)) refl
served_found (p ∷ ps) item port (Memᴰ.tail m) s =
    later (matches_port item p) (served_found ps item port m s)
  where
    later : (a : Bool) {b : Bool} → b ≡ true → (a || b) ≡ true
    later true h = refl
    later false h = h

-- A port is found among the ports of a service exactly when one of them has its protocol, and its
-- number or, if that name is not empty, its name.
pub port_exists_iff :
    (slice : List ServicePort) (item : ServicePort)
    → port_exists slice item ≡ true ↔ ServedBy slice item
port_exists_iff slice item =
    (found_served slice item, λ (port, m, s). served_found slice item port m s)
