-- ===== src/Controllers/OnionService/Reconcile/Complete.antt =====
-- The OnionService reconciler as a whole: what is there after a run without an error.
use mathlib.Core.List.{Memᴰ}
use mathlib.Core.Option.{some-injective}
use tor_controller.Base.{
  ◌≡◌, ◌≢◌, refl, sym, ap, ◌∙◌, subst, String, true, false, Option, none, some, List, [], ◌∷◌,
}
use tor_controller.Base.Exec.{Result, ok, err, panic, attempt, ◌>>=◌}
use tor_controller.Kube.Types.{NamespacedName, ObjectMeta, Service}
use tor_controller.Kube.Client.{
  Kube, Kind, Object, onion_service, service, service_account, role, role_binding, secret,
  deployment, service_monitor, ServerLaws, ErrorLaws,
}
use tor_controller.Apis.Types.{OnionService, ServiceRule, ProjectConfig}
use tor_controller.Apis.OnionServiceUtil.{
  role_name, service_account_name, service_name, secret_name, deployment_name,
}
use tor_controller.Controllers.Equal.{port_exists}
use tor_controller.Controllers.Ensure.{Done, wrapped}
use tor_controller.Controllers.Ensure.Foreign.{found}
use tor_controller.Controllers.Ensure.Guarded.{Guarded}
use tor_controller.Controllers.Ensure.Made.{
  Makes-unread, stored-not_missing, place_in, Makes-here, Makes-after,
}
use tor_controller.Controllers.Ensure.Present.{
  Makes, Makes-first, Makes-return_error, Makes-crash, Present, Present-guarded, continue-makes,
}
use tor_controller.Controllers.OnionService.Rbac.{
  reconcile_service_account, reconcile_role, reconcile_role_binding,
}
use tor_controller.Controllers.OnionService.Services.{reconcile_service}
use tor_controller.Controllers.OnionService.Clients.{reconcile_secret_authorized_clients}
use tor_controller.Controllers.OnionService.Secret.{reconcile_secret}
use tor_controller.Controllers.OnionService.Deployment.{reconcile_deployment}
use tor_controller.Controllers.OnionService.Reconcile.{
  asked_port, on_target, check_rules, reconcile_children, update_status, on_onion_service,
  reconcile,
}
use tor_controller.Controllers.OnionService.Reconcile.Chain.{
  from_metrics, from_deployment, from_service, from_role_binding, from_role, from_service_account,
  from_secret, from_metrics-Keeps, from_deployment-Keeps, from_service-Keeps,
  from_role_binding-Keeps, from_role-Keeps, from_service_account-Keeps,
}
use tor_controller.Controllers.OnionService.Reconcile.Children.{
  reconcile_service_account-Makes, reconcile_role-Makes, reconcile_role_binding-Makes,
  reconcile_service-Makes, reconcile_deployment-Makes, reconcile_secret-Makes,
}
use tor_controller.Controllers.OnionService.Reconcile.Rules.{target}
use tor_controller.Controllers.OnionService.Reconcile.Safe.{update_status-Keeps}

-- The objects that an OnionService has whatever it asks for.
pub data ChildOf (o : OnionService) : Kind → NamespacedName → Type 0 where
  its_secret : ChildOf o secret (place_in o.object_meta (secret_name o))
  its_service_account : ChildOf o service_account (place_in o.object_meta (service_account_name o))
  its_role : ChildOf o role (place_in o.object_meta (role_name o))
  its_role_binding : ChildOf o role_binding (place_in o.object_meta (role_name o))
  its_service : ChildOf o service (place_in o.object_meta (service_name o))
  its_deployment : ChildOf o deployment (place_in o.object_meta (deployment_name o))

-- From what a part of the run makes to what the whole run makes.
module _ (K : Kube) (config : ProjectConfig) (o : OnionService) (P : K.State → Type 0) where
  in_secret : Makes P (from_secret K config o) → Makes P (reconcile_children K config o)
  unfolding reconcile_children
  in_secret = Makes-after P (reconcile_secret_authorized_clients K o) (from_secret K config o)

  in_role : Makes P (from_role K config o) → Makes P (reconcile_children K config o)
  in_role h = in_secret (
      Makes-after P (reconcile_secret K o) (from_service_account K config o)
        (Makes-after P (reconcile_service_account K o) (from_role K config o) h))

  in_service : Makes P (from_service K config o) → Makes P (reconcile_children K config o)
  in_service h = in_role (
      Makes-after P (reconcile_role K o) (from_role_binding K config o)
        (Makes-after P (reconcile_role_binding K o) (from_service K config o) h))

module _ {K : Kube} (L : ServerLaws K) (E : ErrorLaws K) (config : ProjectConfig)
    (o : OnionService) where
  children-Makes :
      (k : Kind) (n : NamespacedName)
      → ((m : ObjectMeta) → Guarded L m (Present L k n))
      → ChildOf o k n
      → Makes (Present L k n) (reconcile_children K config o)
  children-Makes k n g its_secret = in_secret K config o (Present L k n) (
      Makes-here _ (reconcile_secret K o) (from_service_account K config o)
        (reconcile_secret-Makes L E o) (from_service_account-Keeps L config _ g o))
  children-Makes k n g its_service_account = in_secret K config o (Present L k n) (
      Makes-after _ (reconcile_secret K o) (from_service_account K config o) (
        Makes-here _ (reconcile_service_account K o) (from_role K config o)
          (reconcile_service_account-Makes L E o) (from_role-Keeps L config _ g o)))
  children-Makes k n g its_role = in_role K config o (Present L k n) (
      Makes-here _ (reconcile_role K o) (from_role_binding K config o) (reconcile_role-Makes L E o)
        (from_role_binding-Keeps L config _ g o))
  children-Makes k n g its_role_binding = in_role K config o (Present L k n) (
      Makes-after _ (reconcile_role K o) (from_role_binding K config o) (
        Makes-here _ (reconcile_role_binding K o) (from_service K config o)
          (reconcile_role_binding-Makes L E o) (from_service-Keeps L config _ g o)))
  children-Makes k n g its_service = in_service K config o (Present L k n) (
      Makes-here _ (reconcile_service K o) (from_deployment K config o)
        (reconcile_service-Makes L E o) (from_deployment-Keeps L config _ g o))
  children-Makes k n g its_deployment = in_service K config o (Present L k n) (
      Makes-after _ (reconcile_service K o) (from_deployment K config o) (
        Makes-first _ (reconcile_deployment K config o) (from_metrics K config)
          (reconcile_deployment-Makes L E o config) (from_metrics-Keeps L config _ g)))

  child-not_monitor : (k : Kind) (n : NamespacedName) → ChildOf o k n → k ≢ service_monitor
  child-not_monitor k n its_secret e = cc
  child-not_monitor k n its_service_account e = cc
  child-not_monitor k n its_role e = cc
  child-not_monitor k n its_role_binding e = cc
  child-not_monitor k n its_service e = cc
  child-not_monitor k n its_deployment e = cc

  child-made :
      (k : Kind) (n : NamespacedName)
      → ChildOf o k n
      → Makes (Present L k n) (reconcile_children K config o >>= update_status K config)
  child-made k n c =
      Makes-first (Present L k n) (reconcile_children K config o) (update_status K config)
        (children-Makes k n g c)
        (λ u.
          update_status-Keeps L (Present L k n) config u (g u.object_meta)
            (λ ip. record { at = λ s h. L.update_status-present onion_service _ s k n h }))
    where
      g : (m : ObjectMeta) → Guarded L m (Present L k n)
      g m = Present-guarded L m k n (child-not_monitor k n c)

module _ {K : Kube} (L : ServerLaws K) (E : ErrorLaws K) (namespace : String)
    (P : K.State → Type 0) where
  on_target-made :
      (rule : ServiceRule) (rest : Done K) (r : Result K.Error Service) (s : K.State)
      → ((v : Service) → r ≡ ok v → port_exists v.spec.ports (asked_port rule) ≡ true)
      → ((b : Unit {0}) → (rest s).0 ≡ ok b → P (rest s).1)
      → (b : Unit {0}) → (on_target K rule rest r s).0 ≡ ok b
      → P (on_target K rule rest r s).1
  unfolding on_target
  on_target-made rule rest (ok v) s there k = rw (there v refl) k
  on_target-made rule rest (err e) s there k =
      (Makes-return_error P (wrapped K "service not found" e)
          (E.wrap-some e "service not found")).at
        s
  on_target-made rule rest panic s there k = (Makes-crash P).at s

  check_rules-made :
      (rest : Done K) (rules : List ServiceRule)
      (m : (k : Kind) → NamespacedName → Option (Object k))
      → ((rule : ServiceRule)
          → Memᴰ rule rules
          → (v : Service) → m service (target namespace rule) ≡ some v
          → port_exists v.spec.ports (asked_port rule) ≡ true)
      → ((s : K.State) → L.contents s ≡ m → (b : Unit {0}) → (rest s).0 ≡ ok b → P (rest s).1)
      → (s : K.State) → L.contents s ≡ m
      → (b : Unit {0}) → (check_rules K namespace rules rest s).0 ≡ ok b
      → P (check_rules K namespace rules rest s).1
  unfolding check_rules attempt ◌>>=◌
  check_rules-made rest [] m serves k s e = k s e
  check_rules-made rest (rule ∷ rules) m serves k s e =
      let place : NamespacedName = target namespace rule in
      let after : K.State = (K.get service place s).1 in
      let same : L.contents after ≡ m = L.get-keeps service place s ∙ e in
      continue-makes P (on_target K rule (check_rules K namespace rules rest))
        (attempt (K.get service place) s).0 (attempt (K.get service place) s).1
        (λ r q.
          on_target-made rule (check_rules K namespace rules rest) r after
            (λ v z.
              serves rule (Memᴰ.head refl) v
                (ap (λ c. c service place) (sym e) ∙ found L service place s r v q z))
            (check_rules-made rest rules m (λ x mem. serves x (Memᴰ.tail mem)) k after same))

module _ {K : Kube} (L : ServerLaws K) (E : ErrorLaws K) (config : ProjectConfig)
    (request : NamespacedName) where
  fetched :
      (s s' : K.State) (o : OnionService) (r : Result K.Error OnionService)
      → L.contents s' ≡ L.contents s
      → ((u : OnionService) → r ≡ ok u → u ≡ o)
      → ((e : K.Error) → r ≡ err e → K.is_not_found e ≡ false)
      → ((rule : ServiceRule)
          → Memᴰ rule o.spec.rules
          → (v : Service) → L.contents s service (target o.object_meta.namespace rule) ≡ some v
          → port_exists v.spec.ports (asked_port rule) ≡ true)
      → (k : Kind) (n : NamespacedName) → ChildOf o k n
      → (b : Unit {0}) → (on_onion_service K config r s').0 ≡ ok b
      → Present L k n (on_onion_service K config r s').1
  unfolding on_onion_service
  fetched s s' o (ok u) kept same bad serves k n c b h =
      let e : u ≡ o = same u refl in
      check_rules-made L E u.object_meta.namespace (Present L k n) _ u.spec.rules (L.contents s)
        (subst
          (λ z.
            (rule : ServiceRule)
            → Memᴰ rule z.spec.rules
            → (v : Service) → L.contents s service (target z.object_meta.namespace rule) ≡ some v
            → port_exists v.spec.ports (asked_port rule) ≡ true)
          (sym e) serves)
        (λ t _. (child-made L E config u k n (subst (λ z. ChildOf z k n) (sym e) c)).at t) s' kept b
        h
  fetched s s' o (err e) kept same bad serves k n c b h =
      (Makes-unread E (Present L k n) e "unable to fetch OnionService" (bad e refl)).at s' b h
  fetched s s' o panic kept same bad serves k n c b h = (Makes-crash (Present L k n)).at s' b h

  -- For an OnionService that exists, and whose rules ask no service in the cluster for a port that the service lacks, a
  -- run of the reconciler that returns no error leaves the secret, the service account, the role, its binding, the
  -- service and the deployment of the OnionService in the cluster.
  pub reconcile-makes :
      (s : K.State) (o : OnionService)
      → L.contents s onion_service request ≡ some o
      → ((rule : ServiceRule)
          → Memᴰ rule o.spec.rules
          → (v : Service) → L.contents s service (target o.object_meta.namespace rule) ≡ some v
          → port_exists v.spec.ports (asked_port rule) ≡ true)
      → (reconcile K config request s).0 ≡ ok tt
      → (k : Kind) (n : NamespacedName) → ChildOf o k n
      → L.contents (reconcile K config request s).1 k n ≢ none
  unfolding reconcile attempt ◌>>=◌
  reconcile-makes s o h serves r k n c =
      continue-makes (Present L k n) (on_onion_service K config)
        (attempt (K.get onion_service request) s).0 (attempt (K.get onion_service request) s).1
        (λ v e b g.
          fetched s (K.get onion_service request s).1 o v (L.get-keeps onion_service request s)
            (λ u q. some-injective u o (sym (found L onion_service request s v u e q) ∙ h))
            (λ x q. stored-not_missing L onion_service request s o h v x e q) serves k n c b g)
        tt r
