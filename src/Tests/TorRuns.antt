-- ===== src/Tests/TorRuns.antt =====
-- The Tor reconciler and its defaults at concrete inputs.
use tor_controller.Controllers.Tor.Deployment.Selects.{tor_deployment-Selects}
use tor_controller.Controllers.Tor.Deployment.{tor_deployment}
use tor_controller.Controllers.Objects.Labels.{Selects}
use tor_controller.Controllers.Tor.Reconcile.Missing.{reconcile-unread}
use tor_controller.Kube.Types.{ServicePort}
use tor_controller.Kube.Client.{key_of}
use tor_controller.Kube.Memory.Client.{answer}
use tor_controller.Controllers.Equal.Ports.{ServedBy, port_exists_iff}
use tor_controller.Controllers.Equal.{port_exists}
use tor_controller.Controllers.Tor.Services.Live.{reconcile_service-always_updates}
use tor_controller.Controllers.Tor.Services.{
  has_some, get_tor_service_port_list, tor_service, reconcile_service,
}
use tor_controller.Controllers.Tor.Services.Ports.{defaults-has_some}
use tor_controller.Apis.TorUtil.Defaults.{
  set_tor_defaults-idempotent, set_tor_defaults-ready, set_tor_defaults-enables, all_ready,
  enabled_ports,
}
use tor_controller.Apis.Format.{suffixed}
use tor_controller.Apis.TorUtil.{
  service_account_name, set_tor_defaults, role_name, service_name, secret_name, set_ports_defaults,
  config_map_name, deployment_name, service_metrics_name, any_port_enabled,
}
use tor_controller.Base.{◌↔◌, ap}
use tor_controller.Apis.TorUtil.{role_name}
use tor_controller.Kube.Full.{
  at_place, example_tor, everything, full, full-ErrorLaws, full-ServerLaws,
}
use tor_controller.Base.{true, false, none, some, [], ◌∷◌, ◌≡◌, ◌≢◌, refl}
use tor_controller.Base.Exec.{ok, ◌>>=◌, attempt}
use tor_controller.Kube.Types.{Service}
use tor_controller.Kube.Client.{tor, service, role}
use tor_controller.Base.Exec.{err}
use tor_controller.Kube.Memory.{MemoryError, Store, stored, stored-own, missing}
use tor_controller.Kube.Memory.Client.{memory, memory-ErrorLaws, memory-ServerLaws}
use tor_controller.Apis.Types.{Tor}
use tor_controller.Controllers.Tor.Reconcile.{reconcile}
use tor_controller.Controllers.Tor.Reconcile.Safe.{reconcile-foreign}
use tor_controller.Controllers.Tor.Reconcile.Complete.{reconcile_complete, its_role}
use tor_controller.Tests.{
  other_place, other_service, cluster, example_config, request, other_service-stored, empty_cluster,
}

reconcile-foreign_example :
    stored (reconcile memory example_config request cluster).1 service other_place
    ≡ some other_service
unfolding memory-ServerLaws
reconcile-foreign_example =
    reconcile-foreign memory-ServerLaws example_config request cluster {j = service} other_place
      other_service other_service-stored (λ t h. refl) (λ (p, q). cc)

-- A Tor that is there, and whose children are there.
abbrev relay : Tor
relay = everything tor request

reconcile_complete_example :
    full-ServerLaws.contents
      (reconcile full example_config request tt).1
      role
      (record { name = role_name relay; namespace = "apps" })
    ≢ none
unfolding reconcile ◌>>=◌ attempt full-ServerLaws service_account_name suffixed set_tor_defaults
    role_name service_name secret_name set_ports_defaults config_map_name deployment_name
    service_metrics_name
reconcile_complete_example =
    reconcile_complete full-ServerLaws full-ErrorLaws example_config request tt relay refl refl role
      (record { name = role_name relay; namespace = "apps" }) its_role

reconcile-unread_example :
    ((reconcile memory example_config request empty_cluster).1
      ≡ (memory.get tor request empty_cluster).1)
    × (memory.is_not_found missing ≡ true
        → (reconcile memory example_config request empty_cluster).0 ≡ ok tt)
    × (memory.is_not_found missing ≡ false
        → (x : MemoryError) × ((reconcile memory example_config request empty_cluster).0 ≡ err x))
unfolding stored
reconcile-unread_example =
    reconcile-unread memory-ErrorLaws example_config request empty_cluster missing refl

set_tor_defaults-idempotent_example :
    set_tor_defaults (set_tor_defaults example_tor) ≡ set_tor_defaults example_tor
set_tor_defaults-idempotent_example = set_tor_defaults-idempotent example_tor

set_tor_defaults-ready_example : all_ready (set_tor_defaults example_tor) ≡ true
set_tor_defaults-ready_example = set_tor_defaults-ready example_tor

set_tor_defaults-enables_example :
    (any_port_enabled example_tor.spec ≡ true
      → enabled_ports (set_tor_defaults example_tor) ≡ enabled_ports example_tor)
    × (any_port_enabled example_tor.spec ≡ false
        → enabled_ports (set_tor_defaults example_tor)
          ≡ false ∷ false ∷ (false ∷ false ∷ false ∷ false ∷ true ∷ false ∷ []))
set_tor_defaults-enables_example = set_tor_defaults-enables example_tor

defaults-has_some_example :
    has_some (get_tor_service_port_list (set_tor_defaults example_tor)) ≡ true
defaults-has_some_example = defaults-has_some example_tor

abbrev http : ServicePort
http = record { name = "http"; protocol = "TCP"; port = 80; target_port = 8080 }

abbrev asked : ServicePort
asked = record { name = "http"; protocol = "TCP"; port = 0; target_port = 0 }

port_exists_iff_example : port_exists (http ∷ []) asked ≡ true ↔ ServedBy (http ∷ []) asked
port_exists_iff_example = port_exists_iff (http ∷ []) asked

abbrev own_service : Service
own_service = record {
  object_meta = record (at_place other_place) {
    owner_references =
        memory.new_controller_ref example_tor.object_meta
          (record { group = ""; version = ""; kind = "Tor" })
        ∷ [];
  };
  spec = record { selector = []; ports = []; cluster_ip = "10.0.0.1"; rest = "" };
  status = "";
}

abbrev own_cluster : Store
own_cluster tor n = some example_tor
own_cluster service n = some own_service
own_cluster k n = none

own_service-read :
    (memory.get service (key_of service (tor_service memory example_tor)) own_cluster).0
    ≡ ok own_service
unfolding tor_service service_name suffixed
own_service-read = ap answer (stored-own own_cluster service own_service refl)

reconcile_service-always_updates_example :
    (reconcile_service memory example_tor own_cluster).1
    ≡ (memory.update service
        (tor_service memory example_tor)
        (memory.get service (key_of service (tor_service memory example_tor)) own_cluster).1).1
reconcile_service-always_updates_example =
    reconcile_service-always_updates memory example_tor own_cluster own_service own_service-read
      refl (λ p. cc)

tor_deployment-Selects_example : Selects (tor_deployment memory example_config example_tor).0
tor_deployment-Selects_example = tor_deployment-Selects memory example_config example_tor
