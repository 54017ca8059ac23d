-- ===== src/Controllers/OnionBalancedService/Services.antt =====
-- controllers/tor/onionbalancedservice_service.go, onionbalancedservice_service_metrics.go and
-- onionbalancedservice_service_monitor.go
use tor_controller.Base.{true, none, some, [], ◌∷◌, map}
use tor_controller.Kube.Types.{Service, ServiceMonitor}
use tor_controller.Kube.Client.{Kube, service, service_monitor}
use tor_controller.Apis.Types.{OnionBalancedService}
use tor_controller.Apis.TorUtil.{metrics_port}
use tor_controller.Apis.OnionBalancedServiceUtil.{
  service_name, service_selector, service_metrics_name, service_metrics_selector,
}
use tor_controller.Controllers.OnionService.Services.{rule_port}
use tor_controller.Controllers.Ensure.{Plan, Done, named, wrapped, ensure}
use tor_controller.Controllers.Monitor.{ensure_monitor}
use tor_controller.Controllers.Equal.{service_equal, monitor_service_equal}
use tor_controller.Controllers.Objects.{
  owned_meta, service_spec, metrics_service_port, monitor_spec,
}

module _ (K : Kube) (balanced : OnionBalancedService) where
  unfoldable pub balance_service_service : Service
  balance_service_service = record {
    object_meta =
        owned_meta K balanced.object_meta "OnionBalancedService" (service_name balanced) none;
    spec =
        service_spec (service_selector balanced) (map rule_port balanced.spec.template_spec.rules);
    status = "";
  }

  abbrev pub service_plan : Plan K service
  service_plan = record {
    desired = balance_service_service;
    may_create = true;
    equal = service_equal K;
    fail_get = wrapped K "failed to get Service %s";
    fail_create = wrapped K "failed to create Service %s";
    fail_update = wrapped K "failed to update Service %s";
  }

  unfoldable pub reconcile_service : Done K
  unfolding ensure balance_service_service
  reconcile_service =
      named K (service_name balanced) (ensure K balanced.object_meta service service_plan)

  unfoldable pub balance_metrics_service : Service
  balance_metrics_service = record {
    object_meta =
        owned_meta K balanced.object_meta "OnionBalancedService" (service_metrics_name balanced)
          (some (service_metrics_selector balanced));
    spec = service_spec (service_selector balanced) (metrics_service_port metrics_port ∷ []);
    status = "";
  }

  abbrev pub metrics_service_plan : Plan K service
  metrics_service_plan = record {
    desired = balance_metrics_service;
    may_create = true;
    equal = service_equal K;
    fail_get = wrapped K "failed to get Service";
    fail_create = wrapped K "failed to create Service";
    fail_update = wrapped K "failed to update Service %s";
  }

  unfoldable pub reconcile_metrics_service : Done K
  unfolding ensure balance_metrics_service
  reconcile_metrics_service =
      named K (service_metrics_name balanced)
        (ensure K balanced.object_meta service metrics_service_plan)

  unfoldable pub balance_service_monitor : ServiceMonitor
  balance_service_monitor = record {
    object_meta =
        owned_meta K balanced.object_meta "OnionBalancedService" (service_metrics_name balanced)
          (some (service_metrics_selector balanced));
    spec = monitor_spec (service_metrics_selector balanced) balanced.object_meta.namespace;
  }

  abbrev pub service_monitor_plan : Plan K service_monitor
  service_monitor_plan = record {
    desired = balance_service_monitor;
    may_create = balanced.spec.service_monitor;
    equal = monitor_service_equal K;
    fail_get = wrapped K "failed to get ServiceMonitor %s";
    fail_create = wrapped K "failed to create ServiceMonitor %s";
    fail_update = wrapped K "failed to update ServiceMonitor %s";
  }

  unfoldable pub reconcile_service_monitor : Done K
  unfolding ensure_monitor balance_service_monitor
  reconcile_service_monitor =
      ensure_monitor K balanced.object_meta balanced.spec.service_monitor service_monitor_plan
        (wrapped K "failed to delete ServiceMonitor %s") (service_metrics_name balanced)
