-- ===== src/Controllers/OnionBalancedService/Reconcile/Guarded.antt =====
-- The children of an OnionBalancedService keep a guarded invariant.
use tor_controller.Base.{ℕ, zero, suc, ◌+◌, Option, none, some, str_eq}
use tor_controller.Base.Exec.{Result, ok, err, panic, pure, attempt}
use tor_controller.Kube.Types.{NamespacedName, Secret}
use tor_controller.Kube.Client.{
  Kube, ServerLaws, secret, service, deployment, service_account, role, role_binding, config_map,
  onion_service, key_of,
}
use tor_controller.Apis.Types.{OnionService, OnionBalancedService, ProjectConfig}
use tor_controller.Apis.OnionBalancedServiceUtil.{
  service_account_name, role_name, service_name, service_metrics_name, deployment_name, secret_name,
  config_map_name, onion_service_backend_name,
}
use tor_controller.Controllers.Ensure.{named, wrapped, ensure}
use tor_controller.Controllers.Ensure.Keeps.{
  Keeps, Keeps-bind, Keeps-pure, Keeps-raise, Keeps-crash, Keeps-attempt, Keeps-return_error,
  Keeps-if,
}
use tor_controller.Controllers.Ensure.Guarded.{
  Guarded, named-ensure-Keeps, ensure_created-Keeps, checked-Keeps,
}
use tor_controller.Controllers.Monitor.Keeps.{ensure_monitor-Keeps}
use tor_controller.Controllers.OnionBalancedService.Rbac.{
  reconcile_service_account, reconcile_role, reconcile_role_binding, service_account_plan,
  role_plan, role_binding_plan,
}
use tor_controller.Controllers.OnionBalancedService.Services.{
  reconcile_service, reconcile_metrics_service, reconcile_service_monitor, service_plan,
  metrics_service_plan, service_monitor_plan,
}
use tor_controller.Controllers.OnionBalancedService.Secret.{
  new_secret, return_balanced, on_created_secret, create_secret, on_secret, reconcile_secret,
  with_hostname,
}
use tor_controller.Controllers.OnionBalancedService.ConfigMap.{
  config_map_plan, reconcile_config_map,
}
use tor_controller.Controllers.OnionBalancedService.Deployment.{
  balance_deployment, deployment_plan, reconcile_deployment,
}
use tor_controller.Controllers.OnionBalancedService.Backends.{
  backend, on_backend, with_master, reconcile_backend, go_on, backends_from, reconcile_backends,
}

module _ {K : Kube} (L : ServerLaws K) (P : K.State → Type 0) (balanced : OnionBalancedService)
    (g : Guarded L balanced.object_meta P) where
  pub reconcile_service_account-Keeps : Keeps P (reconcile_service_account K balanced)
  unfolding reconcile_service_account
  reconcile_service_account-Keeps =
      named-ensure-Keeps L balanced.object_meta P g service_account
        (service_account_plan K balanced) (service_account_name balanced)

  pub reconcile_role-Keeps : Keeps P (reconcile_role K balanced)
  unfolding reconcile_role
  reconcile_role-Keeps =
      named-ensure-Keeps L balanced.object_meta P g role (role_plan K balanced) (role_name balanced)

  pub reconcile_role_binding-Keeps : Keeps P (reconcile_role_binding K balanced)
  unfolding reconcile_role_binding
  reconcile_role_binding-Keeps =
      named-ensure-Keeps L balanced.object_meta P g role_binding (role_binding_plan K balanced)
        (role_name balanced)

  pub reconcile_service-Keeps : Keeps P (reconcile_service K balanced)
  unfolding reconcile_service
  reconcile_service-Keeps =
      named-ensure-Keeps L balanced.object_meta P g service (service_plan K balanced)
        (service_name balanced)

  pub reconcile_metrics_service-Keeps : Keeps P (reconcile_metrics_service K balanced)
  unfolding reconcile_metrics_service
  reconcile_metrics_service-Keeps =
      named-ensure-Keeps L balanced.object_meta P g service (metrics_service_plan K balanced)
        (service_metrics_name balanced)

  pub reconcile_service_monitor-Keeps : Keeps P (reconcile_service_monitor K balanced)
  unfolding reconcile_service_monitor
  reconcile_service_monitor-Keeps =
      ensure_monitor-Keeps L balanced.object_meta P g balanced.spec.service_monitor
        (service_monitor_plan K balanced) (wrapped K "failed to delete ServiceMonitor %s")
        (service_metrics_name balanced)

  pub reconcile_deployment-Keeps :
      (config : ProjectConfig) → Keeps P (reconcile_deployment K config balanced)
  unfolding reconcile_deployment
  reconcile_deployment-Keeps config =
      Keeps-bind
        (named K (deployment_name balanced)
          (ensure K balanced.object_meta deployment (deployment_plan K config balanced)))
        (λ _. pure (balance_deployment K config balanced).1)
        (named-ensure-Keeps L balanced.object_meta P g deployment
          (deployment_plan K config balanced) (deployment_name balanced))
        (λ _. Keeps-pure (balance_deployment K config balanced).1)

  pub reconcile_config_map-Keeps : Keeps P (reconcile_config_map K balanced)
  unfolding reconcile_config_map
  reconcile_config_map-Keeps =
      Keeps-if (str_eq (config_map_name balanced) "") _ _ (λ _. Keeps-pure tt)
        (λ _.
          ensure_created-Keeps L balanced.object_meta P g config_map (config_map_plan K balanced))

  return_balanced-Keeps : (e : Option K.Error) → Keeps P (return_balanced K balanced e)
  unfolding return_balanced
  return_balanced-Keeps none = Keeps-pure balanced
  return_balanced-Keeps (some e) = Keeps-raise e

  on_created_secret-Keeps : (r : Result K.Error Secret) → Keeps P (on_created_secret K balanced r)
  unfolding on_created_secret
  on_created_secret-Keeps (ok s) = Keeps-pure (with_hostname balanced s)
  on_created_secret-Keeps (err e) = return_balanced-Keeps (wrapped K "failed to create secret" e)
  on_created_secret-Keeps panic = Keeps-crash

  create_secret-Keeps : (new : Option Secret) → Keeps P (create_secret K balanced new)
  unfolding create_secret
  create_secret-Keeps none = Keeps-crash
  create_secret-Keeps (some s) =
      Keeps-bind (attempt (K.create secret s)) (on_created_secret K balanced)
        (Keeps-attempt (K.create secret s) (g.create secret s)) on_created_secret-Keeps

  on_secret-Keeps :
      (new : Option Secret) (r : Result K.Error Secret) → Keeps P (on_secret K balanced new r)
  unfolding on_secret
  on_secret-Keeps new (ok s) = Keeps-pure (with_hostname balanced s)
  on_secret-Keeps new (err e) =
      Keeps-if (K.is_not_found e) _ _ (λ _. create_secret-Keeps new)
        (λ _. return_balanced-Keeps (wrapped K "failed to get secret" e))
  on_secret-Keeps new panic = Keeps-crash

  abbrev secret_place : NamespacedName
  secret_place = record { name = secret_name balanced; namespace = balanced.object_meta.namespace }

  pub reconcile_secret-Keeps : Keeps P (reconcile_secret K balanced)
  unfolding reconcile_secret
  reconcile_secret-Keeps =
      Keeps-if (str_eq (secret_name balanced) "") _ _ (λ _. Keeps-pure balanced)
        (λ _.
          Keeps-bind (attempt (K.get secret secret_place)) _
            (Keeps-attempt (K.get secret secret_place) (g.get secret secret_place))
            (λ found.
              Keeps-bind (attempt K.generate_key) _ (Keeps-attempt K.generate_key g.generate_key)
                (λ keys. on_secret-Keeps (new_secret K balanced keys) found)))

  on_backend-Keeps :
      (idx : ℕ) (r : Result K.Error OnionService) → Keeps P (on_backend K balanced idx r)
  unfolding on_backend
  on_backend-Keeps idx (ok o) = Keeps-pure tt
  on_backend-Keeps idx (err e) =
      Keeps-if (K.is_not_found e) _ _
        (λ _.
          Keeps-bind (attempt (K.create onion_service (backend K balanced idx))) _
            (Keeps-attempt (K.create onion_service (backend K balanced idx))
              (g.create onion_service (backend K balanced idx)))
            (checked-Keeps K P (wrapped K "unable to create onionServiceBackend")))
        (λ _. Keeps-return_error (wrapped K "unable to get onionServiceBackend" e))
  on_backend-Keeps idx panic = Keeps-crash

  reconcile_backend-Keeps : (idx : ℕ) → Keeps P (reconcile_backend K balanced idx)
  unfolding reconcile_backend with_master
  reconcile_backend-Keeps idx =
      Keeps-if (str_eq (onion_service_backend_name balanced idx) "") _ _ (λ _. Keeps-pure tt)
        (λ _.
          Keeps-bind (attempt (K.get onion_service (key_of onion_service (backend K balanced idx))))
            _
            (Keeps-attempt _ (g.get onion_service (key_of onion_service (backend K balanced idx))))
            (λ found.
              Keeps-if (str_eq balanced.status.hostname "") _ _
                (λ _. Keeps-raise (K.new_error "OnionBalancedService Hostname is not set"))
                (λ _. on_backend-Keeps idx found)))

  pub backends_from-Keeps : (count idx : ℕ) → Keeps P (backends_from K balanced count idx)
  unfolding backends_from go_on
  backends_from-Keeps zero idx = Keeps-pure tt
  backends_from-Keeps (suc count) idx =
      Keeps-bind (attempt (reconcile_backend K balanced idx)) _
        (Keeps-attempt (reconcile_backend K balanced idx) (reconcile_backend-Keeps idx))
        (λ r. backends_from-Keeps count (idx + 1))

  pub reconcile_backends-Keeps : Keeps P (reconcile_backends K balanced)
  unfolding reconcile_backends
  reconcile_backends-Keeps = backends_from-Keeps balanced.spec.backends 1
