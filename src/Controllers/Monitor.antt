-- ===== src/Controllers/Monitor.antt =====
-- The shape of the three reconcileServiceMonitor functions: nothing without the monitoring CRDs, and
-- a monitor that is there and not requested is deleted.
pub mod Keeps
use tor_controller.Base.{String, Bool, true, false, if◌then◌else◌, not, Option}
use tor_controller.Base.Exec.{
  Result, ok, err, panic, Exec, pure, crash, attempt, return_error, ◌>>=◌,
}
use tor_controller.Kube.Types.{NamespacedName, ObjectMeta}
use tor_controller.Kube.Client.{
  Kube, Kind, Object, service_monitor, custom_resource_definition, key_of,
}
use tor_controller.Controllers.Ensure.{
  Plan, Done, named, checked, with_object, if_controlled, update_if_changed,
}

abbrev pub monitors_definition : NamespacedName
monitors_definition = record {
  name = "servicemonitors.monitoring.coreos.com";
  namespace = "default";
}

module _ (K : Kube) where
  abbrev pub installed :
      Result K.Error (Object custom_resource_definition) → Exec K.State K.Error Bool
  installed (ok o) = pure true
  installed (err e) = pure (not (K.is_not_found e))
  installed panic = crash

  unfoldable pub monitoring_installed : Exec K.State K.Error Bool
  monitoring_installed =
      attempt (K.get custom_resource_definition monitors_definition) >>= installed

module _ (K : Kube) (owner : ObjectMeta) (requested : Bool) (p : Plan K service_monitor)
    (fail_delete : K.Error → Option K.Error) where
  pub delete_or_update : Object service_monitor → Object service_monitor → Done K
  unfolding checked update_if_changed
  delete_or_update existing wanted =
      if not requested
      then attempt (K.delete service_monitor existing) >>= checked K fail_delete
      else update_if_changed K owner service_monitor p existing wanted

  unfoldable pub ensure_monitor : String → Done K
  unfolding monitoring_installed with_object if_controlled delete_or_update
  ensure_monitor name = do
    there ← monitoring_installed K
    if not there
        then pure tt
        else named K name (
            with_object K owner service_monitor p
              (if_controlled K owner service_monitor p delete_or_update))
