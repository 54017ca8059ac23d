-- ===== src/Controllers/Tor/Reconcile/Complete.antt =====
-- The Tor reconciler as a whole: what is there after a run without an error.
use tor_controller.Controllers.Tor.Services.Ports.{defaults-has_some}
use tor_controller.Controllers.Ensure.Foreign.{found}
use tor_controller.Controllers.Ensure.Present.{continue-makes, Makes-crash}
use tor_controller.Controllers.Ensure.Made.{place_in, Makes-unread, stored-not_missing}
use tor_controller.Controllers.Tor.Reconcile.Chain.{
  from_metrics, from_deployment, from_config_map, from_secret, from_service, from_role_binding,
  from_role, from_metrics-Keeps, from_deployment-Keeps, from_secret-Keeps, from_service-Keeps,
  from_role_binding-Keeps, from_role-Keeps,
}
use mathlib.Core.Option.{some-injective}
use tor_controller.Base.{◌∙◌}
use tor_controller.Controllers.Tor.Reconcile.{update_status, on_tor, reconcile}
use tor_controller.Controllers.Tor.Reconcile.Safe.{update_status-Keeps}
use tor_controller.Controllers.Tor.Reconcile.Owner.{SameMeta, reconcile_control_secret-Yields}
use tor_controller.Apis.Format.{suffixed}
use tor_controller.Controllers.Ensure.Present.{Makes-then}
use tor_controller.Controllers.Tor.Reconcile.Children.{
  reconcile_service_account-Makes, reconcile_role-Makes, reconcile_role_binding-Makes,
  reconcile_service-Makes, reconcile_config_map-Makes, reconcile_deployment-Makes,
}
use tor_controller.Controllers.Ensure.Foreign.{found}
use tor_controller.Apis.Format.{suffixed}
use tor_controller.Base.{◌∙◌}
use tor_controller.Base.{◌≡◌, ◌≢◌, refl, sym, ap, subst, true, false, none, some}
use tor_controller.Base.Exec.{Result, ok, err, panic, attempt, ◌>>=◌}
use tor_controller.Kube.Types.{NamespacedName, ObjectMeta}
use tor_controller.Kube.Client.{
  Kube, Kind, tor, service, service_account, role, role_binding, config_map, deployment,
  service_monitor, ServerLaws, ErrorLaws,
}
use tor_controller.Apis.Types.{Tor, ProjectConfig}
use tor_controller.Apis.TorUtil.{
  instance_name, set_tor_defaults, role_name, service_account_name, service_name, config_map_name,
  deployment_name,
}
use tor_controller.Controllers.Ensure.Guarded.{Guarded}
use tor_controller.Controllers.Ensure.Present.{
  Makes, Makes-last, Makes-first, Present, Present-guarded,
}
use tor_controller.Controllers.Tor.Rbac.{
  reconcile_service_account, reconcile_role, reconcile_role_binding,
}
use tor_controller.Controllers.Tor.Services.{reconcile_service, has_some, get_tor_service_port_list}
use tor_controller.Controllers.Tor.Torfile.{reconcile_config_map}
use tor_controller.Controllers.Tor.Secret.{reconcile_control_secret}
use tor_controller.Controllers.Tor.Deployment.{reconcile_deployment}
use tor_controller.Controllers.Tor.Reconcile.{reconcile_children}

abbrev pub status_place : Tor → NamespacedName
status_place t = place_in t.object_meta (instance_name t)

-- The objects that a Tor has whatever it asks for.
pub data ChildOf (t : Tor) : Kind → NamespacedName → Type 0 where
  its_service_account : ChildOf t service_account (place_in t.object_meta (service_account_name t))
  its_role : ChildOf t role (place_in t.object_meta (role_name t))
  its_role_binding : ChildOf t role_binding (place_in t.object_meta (role_name t))
  its_service : ChildOf t service (place_in t.object_meta (service_name t))
  its_config_map : ChildOf t config_map (place_in t.object_meta (config_map_name t))
  its_deployment : ChildOf t deployment (place_in t.object_meta (deployment_name t))

config_map_place :
    (t u : Tor)
    → SameMeta t.object_meta u
    → place_in u.object_meta (config_map_name u) ≡ place_in t.object_meta (config_map_name t)
unfolding config_map_name
config_map_place t u = ap (λ (m : ObjectMeta). place_in m (suffixed m.name "-tor-config"))

deployment_place :
    (t u : Tor)
    → SameMeta t.object_meta u
    → place_in u.object_meta (deployment_name u) ≡ place_in t.object_meta (deployment_name t)
unfolding deployment_name
deployment_place t u = ap (λ (m : ObjectMeta). place_in m (suffixed m.name "-tor-daemon"))

-- From what a part of the run makes to what the whole run makes.
module _ (K : Kube) (config : ProjectConfig) (t : Tor) (P : K.State → Type 0) where
  in_role : Makes P (from_role K config t) → Makes P (reconcile_children K config t)
  unfolding reconcile_children
  in_role h = Makes-last P (reconcile_service_account K t) (λ _. from_role K config t) (λ _. h)

  in_role_binding : Makes P (from_role_binding K config t) → Makes P (reconcile_children K config t)
  in_role_binding h =
      in_role (Makes-last P (reconcile_role K t) (λ _. from_role_binding K config t) (λ _. h))

  in_service : Makes P (from_service K config t) → Makes P (reconcile_children K config t)
  in_service h =
      in_role_binding
        (Makes-last P (reconcile_role_binding K t) (λ _. from_service K config t) (λ _. h))

  in_config_map :
      ((u : Tor) → SameMeta t.object_meta u → Makes P (from_config_map K config u))
      → Makes P (reconcile_children K config t)
  in_config_map h = in_service (
      Makes-last P (reconcile_service K t) (λ _. from_secret K config t)
        (λ _.
          Makes-then P (reconcile_control_secret K t) (from_config_map K config)
            (reconcile_control_secret-Yields K t.object_meta t refl) h))

  in_deployment :
      ((u : Tor) → SameMeta t.object_meta u → Makes P (from_deployment K config u))
      → Makes P (reconcile_children K config t)
  in_deployment h = in_config_map (λ u e.
      Makes-last P (reconcile_config_map K u) (λ _. from_deployment K config u) (λ _. h u e))

module _ {K : Kube} (L : ServerLaws K) (E : ErrorLaws K) (config : ProjectConfig) (t : Tor)
    (m : has_some (get_tor_service_port_list t) ≡ true) where
  children-Makes :
      (k : Kind) (n : NamespacedName)
      → ((o : ObjectMeta) → Guarded L o (Present L k n))
      → ChildOf t k n
      → Makes (Present L k n) (reconcile_children K config t)
  unfolding reconcile_children
  children-Makes k n g its_service_account =
      Makes-first _ (reconcile_service_account K t) (λ _. from_role K config t)
        (reconcile_service_account-Makes L E t) (λ _. from_role-Keeps L config _ g t)
  children-Makes k n g its_role = in_role K config t (Present L k n) (
      Makes-first _ (reconcile_role K t) (λ _. from_role_binding K config t)
        (reconcile_role-Makes L E t) (λ _. from_role_binding-Keeps L config _ g t))
  children-Makes k n g its_role_binding = in_role_binding K config t (Present L k n) (
      Makes-first _ (reconcile_role_binding K t) (λ _. from_service K config t)
        (reconcile_role_binding-Makes L E t) (λ _. from_service-Keeps L config _ g t))
  children-Makes k n g its_service = in_service K config t (Present L k n) (
      Makes-first _ (reconcile_service K t) (λ _. from_secret K config t)
        (reconcile_service-Makes L E t m) (λ _. from_secret-Keeps L config _ g t))
  children-Makes k n g its_config_map = in_config_map K config t (Present L k n) (λ u e.
      Makes-first _ (reconcile_config_map K u) (λ _. from_deployment K config u)
        (subst (λ z. Makes (Present L config_map z) (reconcile_config_map K u))
          (config_map_place t u e) (reconcile_config_map-Makes L E u))
        (λ _. from_deployment-Keeps L config _ g u))
  children-Makes k n g its_deployment = in_deployment K config t (Present L k n) (λ u e.
      Makes-first _ (reconcile_deployment K config u) (from_metrics K config)
        (subst (λ z. Makes (Present L deployment z) (reconcile_deployment K config u))
          (deployment_place t u e) (reconcile_deployment-Makes L E u config))
        (from_metrics-Keeps L config _ g))

  child-not_monitor : (k : Kind) (n : NamespacedName) → ChildOf t k n → k ≢ service_monitor
  child-not_monitor k n its_service_account e = cc
  child-not_monitor k n its_role e = cc
  child-not_monitor k n its_role_binding e = cc
  child-not_monitor k n its_service e = cc
  child-not_monitor k n its_config_map e = cc
  child-not_monitor k n its_deployment e = cc

  pub child-made :
      (k : Kind) (n : NamespacedName)
      → ChildOf t k n
      → Makes (Present L k n) (reconcile_children K config t >>= update_status K config)
  child-made k n c =
      Makes-first (Present L k n) (reconcile_children K config t) (update_status K config)
        (children-Makes k n g c)
        (λ u.
          update_status-Keeps L (Present L k n) config u.object_meta (g u.object_meta)
            (λ v e. record { at = λ s h. L.update_status-present tor v s k n h }) u refl)
    where
      g : (o : ObjectMeta) → Guarded L o (Present L k n)
      g o = Present-guarded L o k n (child-not_monitor k n c)

same_children :
    (t : Tor) (k : Kind) (n : NamespacedName) → ChildOf t k n → ChildOf (set_tor_defaults t) k n
unfolding set_tor_defaults role_name service_name config_map_name deployment_name
    service_account_name
same_children t k n its_service_account = its_service_account
same_children t k n its_role = its_role
same_children t k n its_role_binding = its_role_binding
same_children t k n its_service = its_service
same_children t k n its_config_map = its_config_map
same_children t k n its_deployment = its_deployment

module _ {K : Kube} (L : ServerLaws K) (E : ErrorLaws K) (config : ProjectConfig)
    (request : NamespacedName) where
  fetched :
      (t : Tor) (s s' : K.State) (r : Result K.Error Tor)
      → ((u : Tor) → r ≡ ok u → u ≡ t)
      → ((e : K.Error) → r ≡ err e → K.is_not_found e ≡ false)
      → (k : Kind) (n : NamespacedName) → ChildOf t k n
      → (b : Unit {0}) → (on_tor K config r s').0 ≡ ok b
      → Present L k n (on_tor K config r s').1
  unfolding on_tor
  fetched t s s' (ok u) same bad k n c b h =
      (child-made L E config (set_tor_defaults u) (defaults-has_some u) k n
          (same_children u k n (subst (λ z. ChildOf z k n) (sym (same u refl)) c))).at
        s' b h
  fetched t s s' (err e) same bad k n c b h =
      (Makes-unread E (Present L k n) e "unable to fetch Tor" (bad e refl)).at s' b h
  fetched t s s' panic same bad k n c b h = (Makes-crash (Present L k n)).at s' b h

  -- For a Tor that exists, a run of the reconciler that returns no error leaves the service account, the role, its
  -- binding, the service, the config map and the deployment of the Tor in the cluster.
  pub reconcile_complete :
      (s : K.State) (t : Tor)
      → L.contents s tor request ≡ some t
      → (reconcile K config request s).0 ≡ ok tt
      → (k : Kind) (n : NamespacedName) → ChildOf t k n
      → L.contents (reconcile K config request s).1 k n ≢ none
  unfolding reconcile attempt ◌>>=◌
  reconcile_complete s t h r k n c =
      continue-makes (Present L k n) (on_tor K config) (attempt (K.get tor request) s).0
        (attempt (K.get tor request) s).1
        (λ v e b g.
          fetched t s (K.get tor request s).1 v
            (λ u q. some-injective u t (sym (found L tor request s v u e q) ∙ h))
            (λ x q. stored-not_missing L tor request s t h v x e q) k n c b g)
        tt r
