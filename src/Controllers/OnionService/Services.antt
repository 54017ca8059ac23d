-- ===== src/Controllers/OnionService/Services.antt =====
-- controllers/tor/onionservice_service.go, onionservice_service_metrics.go and
-- onionservice_service_monitor.go
use tor_controller.Base.{true, none, some, [], ◌∷◌, map}
use tor_controller.Kube.Types.{Service, ServicePort, ServiceMonitor}
use tor_controller.Kube.Client.{Kube, service, service_monitor}
use tor_controller.Apis.Types.{OnionService, ServiceRule}
use tor_controller.Apis.TorUtil.{metrics_port}
use tor_controller.Apis.OnionServiceUtil.{
  service_name, service_selector, service_metrics_name, service_metrics_selector,
}
use tor_controller.Controllers.Ensure.{Plan, Done, named, wrapped, ensure}
use tor_controller.Controllers.Monitor.{ensure_monitor}
use tor_controller.Controllers.Equal.{service_equal, monitor_service_equal}
use tor_controller.Controllers.Objects.{
  owned_meta, service_spec, metrics_service_port, monitor_spec,
}

-- The port of a rule, without a protocol.
abbrev pub rule_port : ServiceRule → ServicePort
rule_port rule = record {
  name = rule.port.name;
  protocol = "";
  port = rule.port.number;
  target_port = rule.port.number;
}

module _ (K : Kube) (onion : OnionService) where
  unfoldable pub onion_service_service : Service
  onion_service_service = record {
    object_meta = owned_meta K onion.object_meta "OnionService" (service_name onion) none;
    spec = service_spec (service_selector onion) (map rule_port onion.spec.rules);
    status = "";
  }

  abbrev pub service_plan : Plan K service
  service_plan = record {
    desired = onion_service_service;
    may_create = true;
    equal = service_equal K;
    fail_get = wrapped K "failed to get Service %s";
    fail_create = wrapped K "failed to create Service %#v";
    fail_update = wrapped K "failed to update Service %#v";
  }

  unfoldable pub reconcile_service : Done K
  unfolding ensure onion_service_service
  reconcile_service = named K (service_name onion) (ensure K onion.object_meta service service_plan)

  unfoldable pub onion_metrics_service : Service
  onion_metrics_service = record {
    object_meta =
        owned_meta K onion.object_meta "OnionService" (service_metrics_name onion)
          (some (service_metrics_selector onion));
    spec = service_spec (service_selector onion) (metrics_service_port metrics_port ∷ []);
    status = "";
  }

  abbrev pub metrics_service_plan : Plan K service
  metrics_service_plan = record {
    desired = onion_metrics_service;
    may_create = true;
    equal = service_equal K;
    fail_get = wrapped K "failed to get Service %s";
    fail_create = wrapped K "failed to create Service %#v";
    fail_update = wrapped K "failed to update Service %#v";
  }

  unfoldable pub reconcile_metrics_service : Done K
  unfolding ensure onion_metrics_service
  reconcile_metrics_service =
      named K (service_metrics_name onion) (ensure K onion.object_meta service metrics_service_plan)

  unfoldable pub onion_service_monitor : ServiceMonitor
  onion_service_monitor = record {
    object_meta =
        owned_meta K onion.object_meta "OnionService" (service_metrics_name onion)
          (some (service_metrics_selector onion));
    spec = monitor_spec (service_metrics_selector onion) onion.object_meta.namespace;
  }

  abbrev pub service_monitor_plan : Plan K service_monitor
  service_monitor_plan = record {
    desired = onion_service_monitor;
    may_create = onion.spec.service_monitor;
    equal = monitor_service_equal K;
    fail_get = wrapped K "failed to get ServiceMonitor %s";
    fail_create = wrapped K "failed to create ServiceMonitor %s";
    fail_update = wrapped K "failed to update ServiceMonitor %s";
  }

  unfoldable pub reconcile_service_monitor : Done K
  unfolding ensure_monitor onion_service_monitor
  reconcile_service_monitor =
      ensure_monitor K onion.object_meta onion.spec.service_monitor service_monitor_plan
        (wrapped K "failed to delete ServiceMonitor %s") (service_metrics_name onion)
