-- ===== src/Apis/TorUtil/Defaults.antt =====
-- What SetTorDefaults of apis/tor/v1alpha2/tor_util.go leaves in a Tor resource.
use mathlib.Core.List.{map}
use tor_controller.Apis.TorUtil.{control_port, metrics_port, server_port, socks_port}
use tor_controller.Base.{◌||◌, ◌&&◌, not, all}
use tor_controller.Apis.TorUtil.{dns_port, natd_port, http_tunnel_port, trans_port}
use tor_controller.Base.{arith}
use tor_controller.Base.{
  ℕ, String, Bool, true, false, ◌≡◌, refl, ap, sym, ◌∙◌, List, [], ◌∷◌, ◌==◌, if◌then◌else◌, inl,
  inr, Bool-cases, str_eq,
}
use tor_controller.Apis.Types.{
  Tor, TorSpec, TorGenericPortSpec, TorGenericPortWithFlagSpec, TorGenericPortDef,
}
use tor_controller.Apis.TorUtil.{
  or_default, set_ports_defaults, any_port_enabled, set_client_defaults, set_port_and_type_defaults,
  enable_socks, set_spec_defaults, set_tor_defaults, get_all_ports,
}

or_default_idem : (a d : List String) → or_default (or_default a d) d ≡ or_default a d
or_default_idem [] [] = refl
or_default_idem [] (x ∷ d) = refl
or_default_idem (x ∷ a) d = refl

port_idem :
    (n d : ℕ)
    → (let m = if n == 0 then d else n in if m == 0 then d else m) ≡ (if n == 0 then d else n)
port_idem n d = ground arith

set_ports_defaults_idem :
    (d : ℕ) (p : TorGenericPortWithFlagSpec)
    → set_ports_defaults d (set_ports_defaults d p) ≡ set_ports_defaults d p
unfolding set_ports_defaults
set_ports_defaults_idem d p = simp (
  port_idem p.port d,
  or_default_idem p.address ("0.0.0.0" ∷ "::" ∷ []),
  or_default_idem p.policy ("accept 0.0.0.0/0" ∷ "accept ::/0" ∷ []),
)

socks_among : (a b c d : Bool) → (a || (b || (c || (d || true)))) ≡ true
socks_among a b c d = ground arith

pub set_spec_defaults-enabled : (s : TorSpec) → any_port_enabled (set_spec_defaults s) ≡ true
unfolding set_spec_defaults
set_spec_defaults-enabled s = elim (Bool-cases (any_port_enabled (set_port_and_type_defaults s))) [
  | inl e ↦ rw e e
  | inr e ↦ rw e (
      socks_among (set_ports_defaults dns_port s.client.dns).enable
        (set_ports_defaults natd_port s.client.natd).enable
        (set_ports_defaults http_tunnel_port s.client.http_tunnel).enable
        (set_ports_defaults trans_port s.client.trans).enable)
]

type_idem :
    (x : String)
    → (let y = if str_eq x "" then "default" else x in if str_eq y "" then "default" else y)
      ≡ (if str_eq x "" then "default" else x)
type_idem x = elim (Bool-cases (str_eq x "")) [ inl e ↦ rw e refl | inr e ↦ rw (e, e) refl ]

set_port_and_type_defaults_idem :
    (s : TorSpec)
    → set_port_and_type_defaults (set_port_and_type_defaults s) ≡ set_port_and_type_defaults s
unfolding set_port_and_type_defaults set_client_defaults
set_port_and_type_defaults_idem s =
    simp (set_ports_defaults_idem, type_idem s.client.trans_proxy_type)

enable_socks-after_defaults :
    (s : TorSpec)
    → set_port_and_type_defaults (enable_socks s) ≡ enable_socks (set_port_and_type_defaults s)
unfolding set_port_and_type_defaults set_client_defaults enable_socks set_ports_defaults
enable_socks-after_defaults s = refl

settled :
    (x : TorSpec)
    → set_port_and_type_defaults x ≡ x
    → any_port_enabled x ≡ true
    → set_spec_defaults x ≡ x
unfolding set_spec_defaults
settled x d e =
    ap (λ y. if any_port_enabled y then y else enable_socks y) d
    ∙ ap (λ b. if b then x else enable_socks x) e

chosen :
    (s : TorSpec) (b : Bool)
    → (let x = set_port_and_type_defaults s in
        let y = if b then x else enable_socks x in set_port_and_type_defaults y ≡ y)
chosen s true = set_port_and_type_defaults_idem s
chosen s false =
    enable_socks-after_defaults (set_port_and_type_defaults s)
    ∙ ap enable_socks (set_port_and_type_defaults_idem s)

set_spec_defaults-fixed :
    (s : TorSpec) → set_port_and_type_defaults (set_spec_defaults s) ≡ set_spec_defaults s
unfolding set_spec_defaults
set_spec_defaults-fixed s = chosen s (any_port_enabled (set_port_and_type_defaults s))

set_spec_defaults_idem :
    (s : TorSpec) → set_spec_defaults (set_spec_defaults s) ≡ set_spec_defaults s
set_spec_defaults_idem s =
    settled (set_spec_defaults s) (set_spec_defaults-fixed s) (set_spec_defaults-enabled s)

-- Setting the defaults of a Tor again changes nothing.
pub set_tor_defaults-idempotent :
    (t : Tor) → set_tor_defaults (set_tor_defaults t) ≡ set_tor_defaults t
unfolding set_tor_defaults
set_tor_defaults-idempotent t = rw (set_spec_defaults_idem t.spec) refl

abbrev pub is_none : List String → Bool
is_none [] = true
is_none (x ∷ xs) = false

abbrev pub is_ready : TorGenericPortSpec → Bool
is_ready p = not (p.port == 0) && not (is_none p.address)

set_ports_defaults-ready :
    (d : ℕ) (p : TorGenericPortWithFlagSpec)
    → (d == 0) ≡ false
    → is_ready (set_ports_defaults d p).generic ≡ true
unfolding set_ports_defaults
set_ports_defaults-ready d p h = both (ready_port d p.port h) (ready_address p.address)
  where
    both : {a b : Bool} → a ≡ false → b ≡ false → (not a && not b) ≡ true
    both p q = rw (p, q) refl

    ready_port : (d n : ℕ) → (d == 0) ≡ false → ((if n == 0 then d else n) == 0) ≡ false
    ready_port d n h = ground arith

    ready_address : (a : List String) → is_none (or_default a ("0.0.0.0" ∷ "::" ∷ [])) ≡ false
    ready_address [] = refl
    ready_address (x ∷ xs) = refl

abbrev pub all_ready : Tor → Bool
all_ready t = all (λ (d : TorGenericPortDef). is_ready d.port) (get_all_ports t)

set_port_and_type_defaults-ready :
    (t : Tor) (s : TorSpec) → all_ready (record t { spec = set_port_and_type_defaults s }) ≡ true
unfolding get_all_ports all set_port_and_type_defaults set_client_defaults
set_port_and_type_defaults-ready t s =
    rw
      (
        set_ports_defaults-ready control_port s.control.with_flag refl,
        set_ports_defaults-ready metrics_port s.metrics refl,
        set_ports_defaults-ready server_port s.server.with_flag refl,
        set_ports_defaults-ready dns_port s.client.dns refl,
        set_ports_defaults-ready http_tunnel_port s.client.http_tunnel refl,
        set_ports_defaults-ready natd_port s.client.natd refl,
        set_ports_defaults-ready socks_port s.client.socks refl,
        set_ports_defaults-ready trans_port s.client.trans refl,
      )
      refl

-- After the defaults are set, every port of the Tor has a number other than zero and an address.
pub set_tor_defaults-ready : (t : Tor) → all_ready (set_tor_defaults t) ≡ true
unfolding set_tor_defaults
set_tor_defaults-ready t =
    ap (λ (s : TorSpec). all_ready (record t { spec = s })) (sym (set_spec_defaults-fixed t.spec))
    ∙ set_port_and_type_defaults-ready t (set_spec_defaults t.spec)

all_false :
    (a b c d e f : Bool)
    → (a || (b || (c || (d || (e || (f || false)))))) ≡ false
    → (a ≡ false) × (b ≡ false) × (c ≡ false) × (d ≡ false) × (e ≡ false) × (f ≡ false)
all_false a b c d e f h = ground arith

abbrev pub enabled_ports : Tor → List Bool
enabled_ports t = map (λ (d : TorGenericPortDef). d.port.enable) (get_all_ports t)

-- Setting the defaults enables no port of a Tor that has a client or server port enabled, and the
-- SOCKS port alone of a Tor that has none.
pub set_tor_defaults-enables :
    (t : Tor)
    → (any_port_enabled t.spec ≡ true → enabled_ports (set_tor_defaults t) ≡ enabled_ports t)
      × (any_port_enabled t.spec ≡ false
          → enabled_ports (set_tor_defaults t)
            ≡ t.spec.control.enable
              ∷ t.spec.metrics.enable
              ∷ (false ∷ false ∷ false ∷ false ∷ true ∷ false ∷ []))
unfolding set_tor_defaults set_spec_defaults set_port_and_type_defaults set_client_defaults
    set_ports_defaults enable_socks get_all_ports
set_tor_defaults-enables t = (
  λ e. rw e refl,
  λ e.
      let (dns, natd, http_tunnel, trans, socks, server) =
        all_false t.spec.client.dns.enable t.spec.client.natd.enable
          t.spec.client.http_tunnel.enable t.spec.client.trans.enable t.spec.client.socks.enable
          t.spec.server.enable e in
      rw (e, dns, natd, http_tunnel, trans, server) refl,
)
