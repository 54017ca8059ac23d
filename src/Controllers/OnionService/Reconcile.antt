-- ===== src/Controllers/OnionService/Reconcile.antt =====
-- OnionServiceReconciler.Reconcile of controllers/tor/onionservice_controller.go
pub mod Guarded
pub mod Children
pub mod Chain
pub mod Safe
pub mod Complete
pub mod Rules
pub mod Missing
use tor_controller.Base.{ℕ, String, none, some, Option, List, [], ◌∷◌, if◌then◌else◌}
use tor_controller.Base.Exec.{
  Result, ok, err, panic, Exec, pure, crash, attempt, return_error, ◌>>=◌, ◌>>◌,
}
use tor_controller.Kube.Types.{NamespacedName, Service, ServicePort}
use tor_controller.Kube.Client.{Kube, onion_service, service}
use tor_controller.Apis.Types.{OnionService, ServiceRule, ProjectConfig}
use tor_controller.Apis.OnionServiceUtil.{service_name}
use tor_controller.Controllers.Ensure.{Done, wrapped, checked}
use tor_controller.Controllers.Equal.{port_exists}
use tor_controller.Controllers.OnionService.Rbac.{
  reconcile_service_account, reconcile_role, reconcile_role_binding,
}
use tor_controller.Controllers.OnionService.Services.{
  reconcile_service, reconcile_metrics_service, reconcile_service_monitor,
}
use tor_controller.Controllers.OnionService.Clients.{reconcile_secret_authorized_clients}
use tor_controller.Controllers.OnionService.Secret.{reconcile_secret}
use tor_controller.Controllers.OnionService.Deployment.{reconcile_deployment}

-- The port that a rule asks its target service for.
abbrev pub asked_port : ServiceRule → ServicePort
asked_port rule = record {
  name = rule.backend_service.port.name;
  protocol = "TCP";
  port = rule.backend_service.port.number;
  target_port = 0;
}

abbrev pub default_cluster_ip : String
default_cluster_ip = "0.0.0.0"

module _ (K : Kube) where
  -- The error of `Wrapf` is the outer `err`, which is nil here.
  unfoldable pub on_target : ServiceRule → Done K → Result K.Error Service → Done K
  unfolding port_exists
  on_target rule rest (ok s) =
      if port_exists s.spec.ports (asked_port rule)
      then rest
      else return_error (K.wrap none "port in service rule %#v not found in target service")
  on_target rule rest (err e) = return_error (wrapped K "service not found" e)
  on_target rule rest panic = crash

  -- The loop over the rules, and what follows it.
  unfoldable pub check_rules : String → List ServiceRule → Done K → Done K
  unfolding on_target
  check_rules namespace [] rest = rest
  check_rules namespace (rule ∷ rules) rest =
      attempt (K.get service (record { name = rule.backend_service.name; namespace = namespace }))
      >>= on_target rule (check_rules namespace rules rest)

module _ (K : Kube) (config : ProjectConfig) where
  unfoldable pub reconcile_children : OnionService → Exec K.State K.Error OnionService
  unfolding reconcile_secret_authorized_clients reconcile_secret reconcile_service_account
      reconcile_role reconcile_role_binding reconcile_service reconcile_deployment
      reconcile_metrics_service reconcile_service_monitor
  reconcile_children onion = do
    reconcile_secret_authorized_clients K onion
    reconcile_secret K onion
    reconcile_service_account K onion
    reconcile_role K onion
    reconcile_role_binding K onion
    reconcile_service K onion
    onion' ← reconcile_deployment K config onion
    reconcile_metrics_service K onion'
    reconcile_service_monitor K onion'
    pure onion'

  abbrev pub with_ip : OnionService → String → OnionService
  with_ip onion ip = record onion { status = record onion.status { target_cluster_ip = ip } }

  unfoldable pub write_status : OnionService → String → Done K
  unfolding checked
  write_status onion ip =
      attempt (K.update_status onion_service (with_ip onion ip))
      >>= checked K (wrapped K "unable to update OnionService status")

  unfoldable pub on_service : OnionService → Result K.Error Service → Done K
  unfolding write_status
  on_service onion (ok s) = write_status onion s.spec.cluster_ip
  on_service onion (err e) =
      if K.is_not_found e
      then write_status onion default_cluster_ip
      else return_error (wrapped K "unable to get service" e)
  on_service onion panic = crash

  unfoldable pub update_status : OnionService → Done K
  unfolding on_service
  update_status onion =
      attempt (
        K.get service
          (record { name = service_name onion; namespace = onion.object_meta.namespace }))
      >>= on_service onion

  unfoldable pub on_onion_service : Result K.Error OnionService → Done K
  unfolding check_rules
  on_onion_service (ok onion) =
      check_rules K onion.object_meta.namespace onion.spec.rules
        (do onion' ← reconcile_children onion; update_status onion')
  on_onion_service (err e) =
      return_error (K.wrap (K.ignore_not_found (some e)) "unable to fetch OnionService")
  on_onion_service panic = crash

  unfoldable pub reconcile : NamespacedName → Done K
  unfolding reconcile_children update_status on_onion_service
  reconcile request = attempt (K.get onion_service request) >>= on_onion_service
