-- ===== src/Controllers/Tor/Services/Ports.antt =====
-- The ports of the service of a Tor: those that are enabled, in the order of GetAllPorts.
use tor_controller.Base.{◌||◌}
use tor_controller.Base.{
  Bool, true, false, ◌≡◌, refl, List, [], ◌∷◌, any, arith, Bool-cases, inl, inr,
}
use tor_controller.Apis.Types.{Tor, TorGenericPortDef}
use tor_controller.Apis.TorUtil.{get_all_ports, any_port_enabled, set_tor_defaults}
use tor_controller.Apis.TorUtil.Defaults.{set_spec_defaults-enabled}
use tor_controller.Controllers.Tor.Services.{service_ports, get_tor_service_port_list, has_some}

abbrev is_enabled : TorGenericPortDef → Bool
is_enabled d = d.port.enable

skipped : (a b : Bool) → a ≡ false → (a || b) ≡ true → b ≡ true
skipped a b e h = ground arith

enabled-has_some :
    (ds : List TorGenericPortDef) → any is_enabled ds ≡ true → has_some (service_ports ds) ≡ true
unfolding any service_ports
enabled-has_some [] h = cc
enabled-has_some (d ∷ ds) h = elim (Bool-cases d.port.enable) [
  | inl e ↦ rw e refl
  | inr e ↦ rw e (enabled-has_some ds (skipped d.port.enable (any is_enabled ds) e h))
]

all_ports-enabled :
    (t : Tor) → any_port_enabled t.spec ≡ true → any is_enabled (get_all_ports t) ≡ true
unfolding any any_port_enabled get_all_ports
all_ports-enabled t h = ground arith

-- A Tor whose defaults are set has an enabled port, so the list of its service's ports is not empty.
pub defaults-has_some : (t : Tor) → has_some (get_tor_service_port_list (set_tor_defaults t)) ≡ true
unfolding get_tor_service_port_list set_tor_defaults
defaults-has_some t =
    enabled-has_some (get_all_ports (set_tor_defaults t))
      (all_ports-enabled (set_tor_defaults t) (set_spec_defaults-enabled t.spec))
