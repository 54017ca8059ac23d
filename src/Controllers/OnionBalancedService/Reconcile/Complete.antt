-- ===== src/Controllers/OnionBalancedService/Reconcile/Complete.antt =====
-- The OnionBalancedService reconciler as a whole: what is there after a run without an error.
use mathlib.Core.Option.{some-injective}
use tor_controller.Base.{◌≡◌, ◌≢◌, refl, sym, ap, ◌∙◌, subst, String, Bool, false, none, some}
use tor_controller.Base.Exec.{Result, ok, err, panic, pure, attempt, ◌>>=◌}
use tor_controller.Kube.Types.{NamespacedName, ObjectMeta}
use tor_controller.Kube.Client.{
  Kube, Kind, onion_balanced_service, service, service_account, role, role_binding, secret,
  config_map, deployment, service_monitor, ServerLaws, ErrorLaws,
}
use tor_controller.Apis.Types.{OnionBalancedService, ProjectConfig}
use tor_controller.Apis.Format.{suffixed}
use tor_controller.Apis.OnionBalancedServiceUtil.{
  role_name, service_account_name, service_name, secret_name, config_map_name, deployment_name,
}
use tor_controller.Controllers.Ensure.Foreign.{found}
use tor_controller.Controllers.Ensure.Guarded.{Guarded}
use tor_controller.Controllers.Ensure.Keeps.{Keeps-pure}
use tor_controller.Controllers.Ensure.Made.{
  place_in, Makes-here, Makes-after, Makes-unread, stored-not_missing,
}
use tor_controller.Controllers.Ensure.Present.{
  Makes, Makes-first, Makes-then, Makes-crash, Present, Present-guarded, continue-makes,
}
use tor_controller.Controllers.OnionBalancedService.Rbac.{
  reconcile_service_account, reconcile_role, reconcile_role_binding,
}
use tor_controller.Controllers.OnionBalancedService.Services.{reconcile_service}
use tor_controller.Controllers.OnionBalancedService.ConfigMap.{reconcile_config_map}
use tor_controller.Controllers.OnionBalancedService.Secret.{reconcile_secret}
use tor_controller.Controllers.OnionBalancedService.Deployment.{reconcile_deployment}
use tor_controller.Controllers.OnionBalancedService.Reconcile.{
  reconcile_children, update_status, on_balanced, reconcile,
}
use tor_controller.Controllers.OnionBalancedService.Reconcile.Chain.{
  from_backends, from_deployment, from_config_map, from_service, from_role_binding, from_role,
  from_service_account, from_backends-Keeps, from_deployment-Keeps, from_config_map-Keeps,
  from_service-Keeps, from_role_binding-Keeps, from_role-Keeps, from_service_account-Keeps,
}
use tor_controller.Controllers.OnionBalancedService.Reconcile.Children.{
  reconcile_service_account-Makes, reconcile_role-Makes, reconcile_role_binding-Makes,
  reconcile_service-Makes, reconcile_config_map-Makes, reconcile_deployment-Makes,
  reconcile_secret-Makes,
}
use tor_controller.Controllers.OnionBalancedService.Reconcile.Owner.{
  SameMeta, reconcile_secret-Yields,
}
use tor_controller.Controllers.OnionBalancedService.Reconcile.Safe.{update_status-Keeps}

-- The objects that are made once the secret is there.
pub data Later (o : OnionBalancedService) : Kind → NamespacedName → Type 0 where
  its_service_account : Later o service_account (place_in o.object_meta (service_account_name o))
  its_role : Later o role (place_in o.object_meta (role_name o))
  its_role_binding : Later o role_binding (place_in o.object_meta (role_name o))
  its_service : Later o service (place_in o.object_meta (service_name o))
  its_config_map : Later o config_map (place_in o.object_meta (config_map_name o))
  its_deployment : Later o deployment (place_in o.object_meta (deployment_name o))

-- The objects that an OnionBalancedService has whatever it asks for.
pub data ChildOf (o : OnionBalancedService) : Kind → NamespacedName → Type 0 where
  its_secret : ChildOf o secret (place_in o.object_meta (secret_name o))
  later : {k : Kind} {n : NamespacedName} → Later o k n → ChildOf o k n

-- The names of these depend on the metadata alone.
module _ (o b : OnionBalancedService) (e : SameMeta o.object_meta b) where
  same_place :
      (suffix : String)
      → place_in b.object_meta (suffixed b.object_meta.name suffix)
        ≡ place_in o.object_meta (suffixed o.object_meta.name suffix)
  same_place suffix = ap (λ (m : ObjectMeta). place_in m (suffixed m.name suffix)) e

  Later-same : (k : Kind) (n : NamespacedName) → Later o k n → Later b k n
  unfolding role_name service_name config_map_name deployment_name service_account_name
  Later-same k n its_service_account =
      subst (Later b service_account) (same_place "-tor-sa") its_service_account
  Later-same k n its_role = subst (Later b role) (same_place "-tor-role") its_role
  Later-same k n its_role_binding =
      subst (Later b role_binding) (same_place "-tor-role") its_role_binding
  Later-same k n its_service = subst (Later b service) (same_place "-tor-svc") its_service
  Later-same k n its_config_map =
      subst (Later b config_map) (same_place "-tor-config") its_config_map
  Later-same k n its_deployment =
      subst (Later b deployment) (same_place "-tor-daemon") its_deployment

module _ (K : Kube) (config : ProjectConfig) (o : OnionBalancedService) (P : K.State → Type 0) where
  in_role_binding :
      Makes P (from_role_binding K config o) → Makes P (from_service_account K config o)
  in_role_binding h =
      Makes-after P (reconcile_service_account K o) (from_role K config o)
        (Makes-after P (reconcile_role K o) (from_role_binding K config o) h)

  in_config_map : Makes P (from_config_map K config o) → Makes P (from_service_account K config o)
  in_config_map h = in_role_binding (
      Makes-after P (reconcile_role_binding K o) (from_service K config o)
        (Makes-after P (reconcile_service K o) (from_config_map K config o) h))

module _ {K : Kube} (L : ServerLaws K) (E : ErrorLaws K) (config : ProjectConfig)
    (o : OnionBalancedService) where
  Later-Makes :
      (k : Kind) (n : NamespacedName)
      → ((m : ObjectMeta) → Guarded L m (Present L k n))
      → Later o k n
      → Makes (Present L k n) (from_service_account K config o)
  Later-Makes k n g its_service_account =
      Makes-here _ (reconcile_service_account K o) (from_role K config o)
        (reconcile_service_account-Makes L E o) (from_role-Keeps L config _ g o)
  Later-Makes k n g its_role =
      Makes-after _ (reconcile_service_account K o) (from_role K config o) (
        Makes-here _ (reconcile_role K o) (from_role_binding K config o)
          (reconcile_role-Makes L E o) (from_role_binding-Keeps L config _ g o))
  Later-Makes k n g its_role_binding = in_role_binding K config o (Present L k n) (
      Makes-here _ (reconcile_role_binding K o) (from_service K config o)
        (reconcile_role_binding-Makes L E o) (from_service-Keeps L config _ g o))
  Later-Makes k n g its_service = in_role_binding K config o (Present L k n) (
      Makes-after _ (reconcile_role_binding K o) (from_service K config o) (
        Makes-here _ (reconcile_service K o) (from_config_map K config o)
          (reconcile_service-Makes L E o) (from_config_map-Keeps L config _ g o)))
  Later-Makes k n g its_config_map = in_config_map K config o (Present L k n) (
      Makes-here _ (reconcile_config_map K o) (from_deployment K config o)
        (reconcile_config_map-Makes L E o) (from_deployment-Keeps L config _ g o))
  Later-Makes k n g its_deployment = in_config_map K config o (Present L k n) (
      Makes-after _ (reconcile_config_map K o) (from_deployment K config o) (
        Makes-first _ (reconcile_deployment K config o) (from_backends K config)
          (reconcile_deployment-Makes L E o config) (from_backends-Keeps L config _ g)))

  Later-not_monitor : (k : Kind) (n : NamespacedName) → Later o k n → k ≢ service_monitor
  Later-not_monitor k n its_service_account e = cc
  Later-not_monitor k n its_role e = cc
  Later-not_monitor k n its_role_binding e = cc
  Later-not_monitor k n its_service e = cc
  Later-not_monitor k n its_config_map e = cc
  Later-not_monitor k n its_deployment e = cc

  child-not_monitor : (k : Kind) (n : NamespacedName) → ChildOf o k n → k ≢ service_monitor
  child-not_monitor k n its_secret e = cc
  child-not_monitor k n (later c) e = Later-not_monitor k n c e

module _ {K : Kube} (L : ServerLaws K) (E : ErrorLaws K) (config : ProjectConfig)
    (o : OnionBalancedService) where
  children-Makes :
      (k : Kind) (n : NamespacedName)
      → ((m : ObjectMeta) → Guarded L m (Present L k n))
      → ChildOf o k n
      → Makes (Present L k n) (reconcile_children K config o)
  unfolding reconcile_children
  children-Makes k n g its_secret =
      Makes-first _ (reconcile_secret K o) (from_service_account K config)
        (reconcile_secret-Makes L E o) (from_service_account-Keeps L config _ g)
  children-Makes k n g (later c) =
      Makes-then _ (reconcile_secret K o) (from_service_account K config)
        (reconcile_secret-Yields K o)
        (λ b e. Later-Makes L E config b k n g (Later-same o b e k n c))

  child-made :
      (asked : String) (k : Kind) (n : NamespacedName)
      → ChildOf o k n
      → Makes (Present L k n) (reconcile_children K config o >>= update_status K config asked)
  child-made asked k n c =
      Makes-first (Present L k n) (reconcile_children K config o) (update_status K config asked)
        (children-Makes k n g c)
        (λ u.
          update_status-Keeps L (Present L k n) config asked u (g u.object_meta) (λ v e. record {
            at = λ s h. L.update_status-present onion_balanced_service v s k n h;
          }))
    where
      g : (m : ObjectMeta) → Guarded L m (Present L k n)
      g m = Present-guarded L m k n (child-not_monitor L E config o k n c)

module _ {K : Kube} (L : ServerLaws K) (E : ErrorLaws K) (config : ProjectConfig)
    (request : NamespacedName) where
  fetched :
      (o : OnionBalancedService) (s : K.State) (r : Result K.Error OnionBalancedService)
      → ((u : OnionBalancedService) → r ≡ ok u → u ≡ o)
      → ((e : K.Error) → r ≡ err e → K.is_not_found e ≡ false)
      → (k : Kind) (n : NamespacedName) → ChildOf o k n
      → (again : Bool) → (on_balanced K config request.namespace r s).0 ≡ ok again
      → Present L k n (on_balanced K config request.namespace r s).1
  unfolding on_balanced
  fetched o s (ok u) same bad k n c again h =
      (child-made L E config u request.namespace k n
          (subst (λ z. ChildOf z k n) (sym (same u refl)) c)).at
        s again h
  fetched o s (err e) same bad k n c again h =
      (Makes-first (Present L k n) _ (λ _. pure false)
          (Makes-unread E (Present L k n) e "unable to fetch OnionBalancedService" (bad e refl))
          (λ _. Keeps-pure false)).at
        s again h
  fetched o s panic same bad k n c again h = (Makes-crash (Present L k n)).at s again h

  -- For an OnionBalancedService that exists, a run of the reconciler that returns no error, whether or not it asks to
  -- run again, leaves the secret, the service account, the role, its binding, the service, the config map and the
  -- deployment of the OnionBalancedService in the cluster.
  pub reconcile-provides :
      (s : K.State) (o : OnionBalancedService) (again : Bool)
      → L.contents s onion_balanced_service request ≡ some o
      → (reconcile K config request s).0 ≡ ok again
      → (k : Kind) (n : NamespacedName) → ChildOf o k n
      → L.contents (reconcile K config request s).1 k n ≢ none
  unfolding reconcile attempt ◌>>=◌
  reconcile-provides s o again h r k n c =
      continue-makes (Present L k n) (on_balanced K config request.namespace)
        (attempt (K.get onion_balanced_service request) s).0
        (attempt (K.get onion_balanced_service request) s).1
        (λ v e b g.
          fetched o (K.get onion_balanced_service request s).1 v
            (λ u q. some-injective u o (sym (found L onion_balanced_service request s v u e q) ∙ h))
            (λ x q. stored-not_missing L onion_balanced_service request s o h v x e q) k n c b g)
        again r
