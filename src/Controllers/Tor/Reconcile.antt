-- ===== src/Controllers/Tor/Reconcile.antt =====
-- Reconciler.Reconcile of controllers/tor/tor_controller.go
pub mod Guarded
pub mod Owner
pub mod Safe
pub mod Children
pub mod Chain
pub mod Complete
pub mod Missing
use tor_controller.Base.{ℕ, String, none, some, Option}
use tor_controller.Base.Exec.{
  Result, ok, err, panic, Exec, pure, raise, crash, attempt, return_error, ◌>>=◌, ◌>>◌,
}
use tor_controller.Kube.Types.{NamespacedName, Service}
use tor_controller.Kube.Client.{Kube, tor, service}
use tor_controller.Apis.Types.{Tor, ProjectConfig}
use tor_controller.Apis.TorUtil.{instance_name, set_tor_defaults}
use tor_controller.Controllers.Ensure.{Done, wrapped, checked}
use tor_controller.Controllers.Tor.Rbac.{
  reconcile_service_account, reconcile_role, reconcile_role_binding,
}
use tor_controller.Controllers.Tor.Services.{
  reconcile_service, reconcile_metrics_service, reconcile_service_monitor,
}
use tor_controller.Controllers.Tor.Torfile.{reconcile_config_map}
use tor_controller.Controllers.Tor.Secret.{reconcile_control_secret}
use tor_controller.Controllers.Tor.Deployment.{reconcile_deployment}

module _ (K : Kube) (config : ProjectConfig) where
  -- The nine children, in the order of the code. The Tor comes back as they leave it.
  unfoldable pub reconcile_children : Tor → Exec K.State K.Error Tor
  unfolding reconcile_service_account reconcile_role reconcile_role_binding reconcile_service
      reconcile_control_secret reconcile_config_map reconcile_deployment reconcile_metrics_service
      reconcile_service_monitor
  reconcile_children t = do
    reconcile_service_account K t
    reconcile_role K t
    reconcile_role_binding K t
    reconcile_service K t
    t' ← reconcile_control_secret K t
    reconcile_config_map K t'
    t'' ← reconcile_deployment K config t'
    reconcile_metrics_service K t''
    reconcile_service_monitor K t''
    pure t''

  on_service : Tor → Result K.Error Service → Done K
  on_service t (ok _) =
      attempt (K.update_status tor (record t { status_config = "updateme" }))
      >>= checked K (wrapped K "unable to update Tor status")
  on_service t (err e) = return_error (K.wrap (some e) "unable to get service")
  on_service t panic = crash

  -- The status, once the service is there.
  unfoldable pub update_status : Tor → Done K
  unfolding on_service checked
  update_status t =
      attempt
        (K.get service (record { name = instance_name t; namespace = t.object_meta.namespace }))
      >>= on_service t

  unfoldable pub on_tor : Result K.Error Tor → Done K
  unfolding checked
  on_tor (ok t) = do t' ← reconcile_children (set_tor_defaults t); update_status t'
  on_tor (err e) = return_error (K.wrap (K.ignore_not_found (some e)) "unable to fetch Tor")
  on_tor panic = crash

  -- Every path returns the empty `ctrl.Result`, so only the error is kept.
  unfoldable pub reconcile : NamespacedName → Done K
  unfolding reconcile_children update_status on_tor
  reconcile request = attempt (K.get tor request) >>= on_tor
