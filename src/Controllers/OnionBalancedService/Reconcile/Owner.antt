-- ===== src/Controllers/OnionBalancedService/Reconcile/Owner.antt =====
-- The metadata of the OnionBalancedService, which names the owner of the children, is never changed
-- on the way.
use tor_controller.Base.{◌≡◌, refl, ◌∙◌, String, some, none, Option, str_eq}
use tor_controller.Base.GoMap.{GoMap}
use tor_controller.Base.Exec.{Result, ok, err, panic, pure, attempt}
use tor_controller.Kube.Types.{ObjectMeta, Secret}
use tor_controller.Kube.Client.{Kube, secret, deployment}
use tor_controller.Apis.Types.{OnionBalancedService, ProjectConfig}
use tor_controller.Apis.OnionBalancedServiceUtil.{deployment_name, secret_name}
use tor_controller.Controllers.Ensure.{wrapped, named, ensure}
use tor_controller.Controllers.Ensure.Yields.{
  Yields, Yields-pure, Yields-raise, Yields-crash, Yields-if, Yields-bind, Yields-then,
}
use tor_controller.Controllers.OnionBalancedService.Rbac.{
  reconcile_service_account, reconcile_role, reconcile_role_binding,
}
use tor_controller.Controllers.OnionBalancedService.Services.{
  reconcile_service, reconcile_metrics_service, reconcile_service_monitor,
}
use tor_controller.Controllers.OnionBalancedService.Secret.{
  new_secret, return_balanced, on_created_secret, create_secret, on_secret, reconcile_secret,
  with_hostname,
}
use tor_controller.Controllers.OnionBalancedService.ConfigMap.{reconcile_config_map}
use tor_controller.Controllers.OnionBalancedService.Deployment.{
  balance_deployment, deployment_plan, reconcile_deployment, shared_labels,
}
use tor_controller.Controllers.OnionBalancedService.Backends.{reconcile_backends}
use tor_controller.Controllers.OnionBalancedService.Reconcile.{reconcile_children}

abbrev pub SameMeta : ObjectMeta → OnionBalancedService → Type 0
SameMeta m o = o.object_meta ≡ m

shared_labels-SameMeta :
    (o : OnionBalancedService) (labels : Option (GoMap String))
    → SameMeta o.object_meta (shared_labels o labels)
shared_labels-SameMeta o none = refl
shared_labels-SameMeta o (some labels) = refl

pub reconcile_deployment-Yields :
    (K : Kube) (config : ProjectConfig) (o : OnionBalancedService)
    → Yields (SameMeta o.object_meta) (reconcile_deployment K config o)
unfolding reconcile_deployment balance_deployment
reconcile_deployment-Yields K config o =
    Yields-bind
      (named K (deployment_name o) (ensure K o.object_meta deployment (deployment_plan K config o)))
      (λ _. pure (balance_deployment K config o).1)
      (λ _.
        Yields-pure (balance_deployment K config o).1
          (shared_labels-SameMeta o o.spec.balancer_template.object_meta.labels))

module _ (K : Kube) (o : OnionBalancedService) where
  with_hostname-SameMeta : (s : Secret) → SameMeta o.object_meta (with_hostname o s)
  unfolding with_hostname
  with_hostname-SameMeta s = refl

  return_balanced-Yields :
      (e : Option K.Error) → Yields (SameMeta o.object_meta) (return_balanced K o e)
  unfolding return_balanced
  return_balanced-Yields none = Yields-pure o refl
  return_balanced-Yields (some e) = Yields-raise e

  on_created_secret-Yields :
      (r : Result K.Error Secret) → Yields (SameMeta o.object_meta) (on_created_secret K o r)
  unfolding on_created_secret
  on_created_secret-Yields (ok s) = Yields-pure (with_hostname o s) (with_hostname-SameMeta s)
  on_created_secret-Yields (err e) = return_balanced-Yields (wrapped K "failed to create secret" e)
  on_created_secret-Yields panic = Yields-crash

  create_secret-Yields :
      (new : Option Secret) → Yields (SameMeta o.object_meta) (create_secret K o new)
  unfolding create_secret
  create_secret-Yields none = Yields-crash
  create_secret-Yields (some s) =
      Yields-bind (attempt (K.create secret s)) (on_created_secret K o) on_created_secret-Yields

  on_secret-Yields :
      (new : Option Secret) (r : Result K.Error Secret)
      → Yields (SameMeta o.object_meta) (on_secret K o new r)
  unfolding on_secret
  on_secret-Yields new (ok s) = Yields-pure (with_hostname o s) (with_hostname-SameMeta s)
  on_secret-Yields new (err e) =
      Yields-if (K.is_not_found e) _ _ (create_secret-Yields new)
        (return_balanced-Yields (wrapped K "failed to get secret" e))
  on_secret-Yields new panic = Yields-crash

  pub reconcile_secret-Yields : Yields (SameMeta o.object_meta) (reconcile_secret K o)
  unfolding reconcile_secret
  reconcile_secret-Yields = Yields-if (str_eq (secret_name o) "") _ _ (Yields-pure o refl) (
      Yields-bind
        (attempt
          (K.get secret (record { name = secret_name o; namespace = o.object_meta.namespace })))
        _
        (λ found.
          Yields-bind (attempt K.generate_key) _
            (λ keys. on_secret-Yields (new_secret K o keys) found)))

pub reconcile_children-Yields :
    (K : Kube) (config : ProjectConfig) (o : OnionBalancedService)
    → Yields (SameMeta o.object_meta) (reconcile_children K config o)
unfolding reconcile_children
reconcile_children-Yields K config o =
    Yields-then (reconcile_secret K o) _ (reconcile_secret-Yields K o) (λ b same.
      Yields-bind (reconcile_service_account K b) _ (λ _. Yields-bind (reconcile_role K b) _ (λ _.
        Yields-bind (reconcile_role_binding K b) _ (λ _. Yields-bind (reconcile_service K b) _ (λ _.
          Yields-bind (reconcile_config_map K b) _ (λ _.
            Yields-then (reconcile_deployment K config b) _ (reconcile_deployment-Yields K config b)
              (λ u e. Yields-bind (reconcile_backends K u) _ (λ _.
                Yields-bind (reconcile_metrics_service K u) _ (λ _.
                  Yields-bind (reconcile_service_monitor K u) _
                    (λ _. Yields-pure u (e ∙ same)))))))))))
