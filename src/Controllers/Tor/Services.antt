-- ===== src/Controllers/Tor/Services.antt =====
-- controllers/tor/tor_service.go, tor_service_metrics.go and tor_service_monitor.go
pub mod Ports
pub mod Live
use tor_controller.Base.{String, Bool, true, false, none, some, List, [], ◌∷◌, if◌then◌else◌}
use tor_controller.Kube.Types.{Service, ServicePort, ServiceMonitor}
use tor_controller.Kube.Client.{Kube, service, service_monitor}
use tor_controller.Apis.Types.{Tor, TorGenericPortDef}
use tor_controller.Apis.TorUtil.{
  service_name, service_selector, service_metrics_name, service_metrics_selector, get_all_ports,
  metrics_port,
}
use tor_controller.Controllers.Ensure.{Plan, Done, named, wrapped, ensure}
use tor_controller.Controllers.Monitor.{ensure_monitor}
use tor_controller.Controllers.Equal.{service_equal, monitor_service_equal}
use tor_controller.Controllers.Objects.{
  owned_meta, service_spec, metrics_service_port, monitor_spec,
}

-- The loop of getTorServicePortList.
unfoldable pub service_ports : List TorGenericPortDef → List ServicePort
service_ports [] = []
service_ports (d ∷ ds) =
    let rest = service_ports ds in
    if d.port.enable
    then record {
      name = d.name;
      protocol = d.protocol;
      port = d.port.port;
      target_port = d.port.port;
    }
      ∷ rest
    else rest

unfoldable pub get_tor_service_port_list : Tor → List ServicePort
unfolding service_ports get_all_ports
get_tor_service_port_list tor = service_ports (get_all_ports tor)

-- len(ports) != 0
abbrev pub has_some : List ServicePort → Bool
has_some [] = false
has_some (p ∷ ps) = true

module _ (K : Kube) (tor : Tor) where
  unfoldable pub tor_service : Service
  unfolding get_tor_service_port_list
  tor_service = record {
    object_meta = owned_meta K tor.object_meta "Tor" (service_name tor) none;
    spec = service_spec (service_selector tor) (get_tor_service_port_list tor);
    status = "";
  }

  abbrev pub service_plan : Plan K service
  service_plan = record {
    desired = tor_service;
    may_create = has_some (get_tor_service_port_list tor);
    equal = service_equal K;
    fail_get = wrapped K "failed to get Service %s";
    fail_create = wrapped K "failed to create Service %#v";
    fail_update = wrapped K "failed to update Service %#v";
  }

  unfoldable pub reconcile_service : Done K
  unfolding ensure tor_service
  reconcile_service = named K (service_name tor) (ensure K tor.object_meta service service_plan)

  unfoldable pub tor_metrics_service : Service
  tor_metrics_service = record {
    object_meta =
        owned_meta K tor.object_meta "Tor" (service_metrics_name tor)
          (some (service_metrics_selector tor));
    spec = service_spec (service_selector tor) (metrics_service_port metrics_port ∷ []);
    status = "";
  }

  abbrev pub metrics_service_plan : Plan K service
  metrics_service_plan = record {
    desired = tor_metrics_service;
    may_create = tor.spec.metrics.enable;
    equal = service_equal K;
    fail_get = wrapped K "failed to get Service %s";
    fail_create = wrapped K "failed to create Service %#v";
    fail_update = wrapped K "failed to update Service %#v";
  }

  unfoldable pub reconcile_metrics_service : Done K
  unfolding ensure tor_metrics_service
  reconcile_metrics_service =
      named K (service_metrics_name tor) (ensure K tor.object_meta service metrics_service_plan)

  unfoldable pub tor_service_monitor : ServiceMonitor
  tor_service_monitor = record {
    object_meta =
        owned_meta K tor.object_meta "Tor" (service_metrics_name tor)
          (some (service_metrics_selector tor));
    spec = monitor_spec (service_metrics_selector tor) tor.object_meta.namespace;
  }

  abbrev pub service_monitor_plan : Plan K service_monitor
  service_monitor_plan = record {
    desired = tor_service_monitor;
    may_create = tor.spec.service_monitor;
    equal = monitor_service_equal K;
    fail_get = wrapped K "failed to get Service %#v";
    fail_create = wrapped K "failed to create Service %#v";
    fail_update = wrapped K "failed to update Service %#v";
  }

  unfoldable pub reconcile_service_monitor : Done K
  unfolding ensure_monitor tor_service_monitor
  reconcile_service_monitor =
      ensure_monitor K tor.object_meta tor.spec.service_monitor service_monitor_plan
        (wrapped K "failed to delete Service %#v") (service_metrics_name tor)
