-- ===== src/Tests.antt =====
-- A cluster in memory, with a Tor and another owner's service, that the tests run on.
mod Agents
mod Balance
mod Complete
mod Lifecycle
mod Main
mod TorAgent
mod Hash
mod Balanced
mod Onion
mod Stretch
mod TorRuns
use tor_controller.Base.Bytes.{bytes}
use tor_controller.Controllers.OnionBalancedService.Reconcile.Missing.{reconcile-absent}
use tor_controller.Base.{Bool}
use tor_controller.Controllers.OnionBalancedService.Deployment.Selects.{balance_deployment-Selects}
use tor_controller.Controllers.OnionBalancedService.Deployment.{balance_deployment}
use tor_controller.Controllers.OnionBalancedService.Backends.Errors.{
  reconcile_backends-absorbs, reconcile_backends-waits,
}
use tor_controller.Controllers.OnionBalancedService.Backends.{reconcile_backends}
use tor_controller.Controllers.OnionBalancedService.Reconcile.Safe.{reconcile-unowned}
use tor_controller.Kube.Client.{onion_balanced_service}
use tor_controller.Apis.OnionBalancedServiceUtil.Synced.{is_synced_iff, Entry, Known}
use tor_controller.Apis.OnionBalancedServiceUtil.{is_synced}
use tor_controller.Base.{length}
use tor_controller.Apis.Types.{OnionBalancedService}
use mathlib.Core.List.{Memᴰ}
use tor_controller.Base.{all, if◌then◌else◌}
use tor_controller.Base.Exec.{return_error}
use tor_controller.Controllers.OnionService.Deployment.Selects.{onion_deployment-Selects}
use tor_controller.Controllers.OnionService.Deployment.{onion_deployment}
use tor_controller.Controllers.OnionService.Reconcile.Rules.{reconcile-missing_port, target}
use tor_controller.Controllers.OnionService.Reconcile.Missing.{reconcile-unfetched}
use tor_controller.Controllers.OnionService.Reconcile.Safe.{reconcile-others}
use tor_controller.Controllers.OnionService.Reconcile.{check_rules}
use tor_controller.Kube.Memory.{MemoryError}
use tor_controller.Kube.Full.{example_rule}
use tor_controller.Kube.Client.{onion_service}
use tor_controller.Controllers.Tor.Deployment.Selects.{tor_deployment-Selects}
use tor_controller.Controllers.Tor.Deployment.{tor_deployment}
use tor_controller.Controllers.Objects.Labels.{Selects}
use tor_controller.Controllers.Tor.Reconcile.Missing.{reconcile-unread}
use tor_controller.Kube.Types.{ServicePort}
use tor_controller.Kube.Client.{key_of}
use tor_controller.Kube.Memory.Client.{answer}
use tor_controller.Controllers.HashPassword.Hex.{hash_with_salt-eq}
use tor_controller.Controllers.HashPassword.Stretch.{IsCycle, Ends, stretch-IsCycle}
use tor_controller.Controllers.HashPassword.{stretch, hex_upper, hash_with_salt}
use tor_controller.Controllers.Equal.Ports.{ServedBy, port_exists_iff}
use tor_controller.Controllers.Equal.{port_exists}
use tor_controller.Controllers.Tor.Services.Live.{reconcile_service-always_updates}
use tor_controller.Controllers.Tor.Services.{
  has_some, get_tor_service_port_list, tor_service, reconcile_service,
}
use tor_controller.Controllers.Tor.Services.Ports.{defaults-has_some}
use tor_controller.Apis.TorUtil.Defaults.{
  set_tor_defaults-idempotent, set_tor_defaults-ready, set_tor_defaults-enables, all_ready,
  enabled_ports,
}
use tor_controller.Apis.Format.{suffixed}
use tor_controller.Apis.TorUtil.{
  service_account_name, set_tor_defaults, role_name, service_name, secret_name, set_ports_defaults,
  config_map_name, deployment_name, service_metrics_name, any_port_enabled,
}
use tor_controller.Base.{◌↔◌, ap, arith, ◌++◌}
use Prim.Native.String.{◌++◌ as ◌<>◌}
use tor_controller.Apis.TorUtil.{role_name}
use tor_controller.Kube.Full.{
  at_place, example_tor, everything, full, full-ErrorLaws, full-ServerLaws,
}
use tor_controller.Base.{ℕ, true, false, none, some, List, [], ◌∷◌, ◌≡◌, ◌≢◌, refl}
use tor_controller.Base.Exec.{ok, err, ◌>>=◌, attempt}
use tor_controller.Kube.Types.{NamespacedName, Service}
use tor_controller.Kube.Client.{tor, service, role}
use tor_controller.Kube.Memory.{Store, stored, stored-own, missing}
use tor_controller.Kube.Memory.Client.{memory, memory-ErrorLaws, memory-ServerLaws}
use tor_controller.Apis.Types.{ProjectConfig}
use tor_controller.Controllers.Tor.Reconcile.{reconcile}
use tor_controller.Controllers.Tor.Reconcile.Safe.{reconcile-foreign}
use tor_controller.Controllers.Tor.Reconcile.Complete.{reconcile_complete, its_role}

abbrev pub other_place : NamespacedName
other_place = record { name = "relay-tor-svc"; namespace = "apps" }

-- A service with the name that the Tor's own service would have, without an owner.
abbrev pub other_service : Service
other_service = record {
  object_meta = at_place other_place;
  spec = record { selector = []; ports = []; cluster_ip = "10.0.0.1"; rest = "" };
  status = "";
}

abbrev pub cluster : Store
cluster tor n = some example_tor
cluster onion_service n = some (everything onion_service n)
cluster onion_balanced_service n = some (everything onion_balanced_service n)
cluster service n = some other_service
cluster k n = none

abbrev pub example_config : ProjectConfig
example_config = record {
  namespace = "tor";
  tor_daemon_image = "tor";
  tor_daemon_manager_image = "manager";
  tor_onionbalance_manager_image = "balance";
}

abbrev pub request : NamespacedName
request = record { name = "relay"; namespace = "apps" }

pub other_service-stored : stored cluster service other_place ≡ some other_service
other_service-stored = stored-own cluster service other_service refl

abbrev pub empty_cluster : Store
empty_cluster k n = none
