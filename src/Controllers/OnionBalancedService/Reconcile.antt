-- ===== src/Controllers/OnionBalancedService/Reconcile.antt =====
-- OnionBalancedServiceReconciler.Reconcile of controllers/tor/onionbalancedservice_controller.go
pub mod Guarded
pub mod Missing
pub mod Owner
pub mod Safe
pub mod Children
pub mod Chain
pub mod Complete
pub mod Again
use tor_controller.Base.{
  ℕ, String, Bool, true, false, none, some, Option, List, [], ◌∷◌, if◌then◌else◌, not,
}
use tor_controller.Base.Exec.{
  Result, ok, err, panic, Exec, pure, crash, attempt, return_error, ◌>>=◌, ◌>>◌,
}
use tor_controller.Base.GoMap.{GoMap, insert}
use tor_controller.Kube.Types.{NamespacedName, Service}
use tor_controller.Kube.Client.{Kube, onion_balanced_service, service}
use tor_controller.Apis.Types.{
  OnionService, OnionServiceStatus, OnionBalancedService, ProjectConfig,
}
use tor_controller.Apis.OnionBalancedServiceUtil.{service_name, is_synced}
use tor_controller.Controllers.Ensure.{wrapped}
use tor_controller.Controllers.OnionService.Reconcile.{default_cluster_ip}
use tor_controller.Controllers.OnionBalancedService.Rbac.{
  reconcile_service_account, reconcile_role, reconcile_role_binding,
}
use tor_controller.Controllers.OnionBalancedService.Services.{
  reconcile_service, reconcile_metrics_service, reconcile_service_monitor,
}
use tor_controller.Controllers.OnionBalancedService.Secret.{reconcile_secret}
use tor_controller.Controllers.OnionBalancedService.ConfigMap.{reconcile_config_map}
use tor_controller.Controllers.OnionBalancedService.Deployment.{reconcile_deployment}
use tor_controller.Controllers.OnionBalancedService.Backends.{reconcile_backends}

-- The statuses of the OnionServices of a list, by their names.
unfoldable pub add_backends :
    List OnionService → GoMap OnionServiceStatus → GoMap OnionServiceStatus
unfolding insert
add_backends [] backends = backends
add_backends (o ∷ os) backends = add_backends os (insert o.object_meta.name o.status backends)

-- The list that a failed call leaves is empty.
abbrev pub listed_items : {E : Type 0} → Result E (List OnionService) → List OnionService
listed_items (ok os) = os
listed_items (err e) = []
listed_items panic = []

module _ (K : Kube) (config : ProjectConfig) where
  -- What `Reconcile` answers: whether it asks to run again after three seconds.
  abbrev pub Requeue : Type 0
  Requeue = Exec K.State K.Error Bool

  -- return ctrl.Result{}, err
  abbrev pub finished : Option K.Error → Requeue
  finished e = return_error e >> pure false

  unfoldable pub reconcile_children :
      OnionBalancedService → Exec K.State K.Error OnionBalancedService
  unfolding reconcile_secret reconcile_service_account reconcile_role reconcile_role_binding
      reconcile_service reconcile_config_map reconcile_deployment reconcile_backends
      reconcile_metrics_service reconcile_service_monitor
  reconcile_children given = do
    balanced ← reconcile_secret K given
    reconcile_service_account K balanced
    reconcile_role K balanced
    reconcile_role_binding K balanced
    reconcile_service K balanced
    reconcile_config_map K balanced
    balanced' ← reconcile_deployment K config balanced
    reconcile_backends K balanced'
    reconcile_metrics_service K balanced'
    reconcile_service_monitor K balanced'
    pure balanced'

  abbrev pub with_status : OnionBalancedService → String → List OnionService → OnionBalancedService
  with_status balanced ip items = record balanced {
    status = record balanced.status { target_cluster_ip = ip; backends = add_backends items [] };
  }

  unfoldable pub on_updated : OnionBalancedService → Result K.Error OnionBalancedService → Requeue
  on_updated sent (ok balanced) = pure (not (is_synced balanced))
  on_updated sent (err e) = finished (wrapped K "unable to update OnionBalancedService status" e)
  on_updated sent panic = crash

  unfoldable pub write_status :
      OnionBalancedService → String → Result K.Error (List OnionService) → Requeue
  unfolding add_backends on_updated
  write_status balanced ip items =
      let sent = with_status balanced ip (listed_items items) in
      attempt (K.update_status onion_balanced_service sent) >>= on_updated sent

  -- The services are listed in the namespace of the request.
  unfoldable pub with_cluster_ip : String → OnionBalancedService → String → Requeue
  unfolding write_status
  with_cluster_ip asked balanced ip =
      attempt (K.list_onion_services asked) >>= write_status balanced ip

  unfoldable pub on_service : String → OnionBalancedService → Result K.Error Service → Requeue
  unfolding with_cluster_ip
  on_service asked balanced (ok s) = with_cluster_ip asked balanced s.spec.cluster_ip
  on_service asked balanced (err e) =
      if K.is_not_found e
      then with_cluster_ip asked balanced default_cluster_ip
      else finished (wrapped K "unable to get service" e)
  on_service asked balanced panic = crash

  unfoldable pub update_status : String → OnionBalancedService → Requeue
  unfolding on_service
  update_status asked balanced =
      attempt (
        K.get service
          (record { name = service_name balanced; namespace = balanced.object_meta.namespace }))
      >>= on_service asked balanced

  unfoldable pub on_balanced : String → Result K.Error OnionBalancedService → Requeue
  on_balanced asked (ok balanced) = do
    balanced' ← reconcile_children balanced
    update_status asked balanced'
  on_balanced asked (err e) =
      finished (K.wrap (K.ignore_not_found (some e)) "unable to fetch OnionBalancedService")
  on_balanced asked panic = crash

  unfoldable pub reconcile : NamespacedName → Requeue
  unfolding reconcile_children update_status on_balanced
  reconcile request =
      attempt (K.get onion_balanced_service request) >>= on_balanced request.namespace
