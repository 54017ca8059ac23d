-- ===== src/Controllers/Tor/Reconcile/Children.antt =====
-- The children that each part of the Tor reconciler makes, and that the parts after it keep.
use tor_controller.Controllers.Ensure.Present.{guarded}
use tor_controller.Controllers.Tor.Torfile.Hashes.{key-tor_config_map}
use tor_controller.Controllers.Ensure.{on_found, if_controlled}
use tor_controller.Controllers.Ensure.Foreign.{found}
use tor_controller.Controllers.Ensure.Guarded.{unchanged-KeepsAt}
use tor_controller.Controllers.Ensure.Present.{found-Makes, Makes-at}
use tor_controller.Base.Exec.{run}
use tor_controller.Kube.Types.{ConfigMap}
use tor_controller.Controllers.Tor.Reconcile.Guarded.{there-tor_config_map}
use tor_controller.Controllers.Tor.Torfile.{build_config_map, config_map_plan, tor_config_map}
use tor_controller.Controllers.Tor.Reconcile.Owner.{one_replica-SameMeta}
use tor_controller.Apis.Format.{suffixed}
use tor_controller.Base.{◌∙◌}
use tor_controller.Base.{◌≡◌, refl, ap, subst, true, some}
use tor_controller.Base.Exec.{Result, ok, pure, attempt, ◌>>=◌}
use tor_controller.Kube.Types.{NamespacedName, ObjectMeta}
use tor_controller.Kube.Client.{
  Kube, service, service_account, role, role_binding, config_map, deployment, key_of, ServerLaws,
  ErrorLaws,
}
use tor_controller.Apis.Types.{Tor, ProjectConfig}
use tor_controller.Apis.Format.{suffixed-ne-empty}
use tor_controller.Apis.TorUtil.{
  role_name, service_account_name, service_name, config_map_name, deployment_name,
}
use tor_controller.Controllers.Ensure.{Plan}
use tor_controller.Controllers.Ensure.Keeps.{Keeps-pure}
use tor_controller.Controllers.Ensure.Guarded.{Guarded}
use tor_controller.Controllers.Ensure.Present.{
  Makes, Makes-first, Makes-named, Reports, Present, Present-guarded,
}
use tor_controller.Controllers.Ensure.Made.{place_in, wrapped-Reports, named-ensure-Makes}
use tor_controller.Controllers.Tor.Rbac.{
  reconcile_service_account, reconcile_role, reconcile_role_binding, service_account_plan,
  role_plan, role_binding_plan,
}
use tor_controller.Controllers.Tor.Services.{
  reconcile_service, service_plan, has_some, get_tor_service_port_list,
}
use tor_controller.Controllers.Tor.Torfile.{reconcile_config_map}
use tor_controller.Controllers.Tor.Deployment.{
  reconcile_deployment, deployment_plan, tor_deployment,
}

module _ {K : Kube} (L : ServerLaws K) (E : ErrorLaws K) (t : Tor) where
  pub reconcile_service_account-Makes :
      Makes
        (Present L service_account (place_in t.object_meta (service_account_name t)))
        (reconcile_service_account K t)
  unfolding reconcile_service_account service_account_name
  reconcile_service_account-Makes =
      named-ensure-Makes L t.object_meta service_account (service_account_plan K t) (λ h. cc)
        (wrapped-Reports K E service_account (service_account_plan K t) _ _ refl refl) refl
        t.object_meta.name "-tor-sa" refl refl

  pub reconcile_role-Makes :
      Makes (Present L role (place_in t.object_meta (role_name t))) (reconcile_role K t)
  unfolding reconcile_role role_name
  reconcile_role-Makes =
      named-ensure-Makes L t.object_meta role (role_plan K t) (λ h. cc)
        (wrapped-Reports K E role (role_plan K t) _ _ refl refl) refl t.object_meta.name "-tor-role"
        refl refl

  pub reconcile_role_binding-Makes :
      Makes
        (Present L role_binding (place_in t.object_meta (role_name t)))
        (reconcile_role_binding K t)
  unfolding reconcile_role_binding role_name
  reconcile_role_binding-Makes =
      named-ensure-Makes L t.object_meta role_binding (role_binding_plan K t) (λ h. cc)
        (wrapped-Reports K E role_binding (role_binding_plan K t) _ _ refl refl) refl
        t.object_meta.name "-tor-role" refl refl

  pub reconcile_service-Makes :
      has_some (get_tor_service_port_list t) ≡ true
      → Makes (Present L service (place_in t.object_meta (service_name t))) (reconcile_service K t)
  unfolding reconcile_service service_name
  reconcile_service-Makes m =
      named-ensure-Makes L t.object_meta service (service_plan K t) (λ h. cc)
        (wrapped-Reports K E service (service_plan K t) _ _ refl refl) m t.object_meta.name
        "-tor-svc" refl refl

  deployment_place-SameName :
      (config : ProjectConfig)
      → key_of deployment (tor_deployment K config t).0 ≡ place_in t.object_meta (deployment_name t)
  unfolding tor_deployment deployment_name
  deployment_place-SameName config =
      ap (λ (m : ObjectMeta). place_in m (suffixed m.name "-tor-daemon"))
        (one_replica-SameMeta t.object_meta t refl)

  pub reconcile_deployment-Makes :
      (config : ProjectConfig)
      → Makes
          (Present L deployment (place_in t.object_meta (deployment_name t)))
          (reconcile_deployment K config t)
  unfolding reconcile_deployment deployment_name
  reconcile_deployment-Makes config =
      Makes-first _ _ (λ _. pure (tor_deployment K config t).1)
        (named-ensure-Makes L t.object_meta deployment (deployment_plan K config t) (λ h. cc)
          (wrapped-Reports K E deployment (deployment_plan K config t) _ _ refl refl) refl
          t.object_meta.name "-tor-daemon" refl (deployment_place-SameName config))
        (λ _. Keeps-pure (tor_deployment K config t).1)

  config_map-Reports : (desired : ConfigMap) → Reports K config_map (config_map_plan K desired)
  config_map-Reports desired =
      wrapped-Reports K E config_map (config_map_plan K desired) _ _ refl refl

  abbrev pub map_place : NamespacedName
  map_place = place_in t.object_meta (config_map_name t)

  abbrev plan_at : K.State → Plan K config_map
  plan_at s = config_map_plan K (tor_config_map K t s).0

  guard : Guarded L t.object_meta (Present L config_map map_place)
  guard = Present-guarded L t.object_meta config_map map_place (λ e. cc)

  built-Present :
      (s : K.State) (r : Result K.Error ConfigMap)
      → ((o : ConfigMap) → r ≡ ok o → L.contents s config_map map_place ≡ some o)
      → (b : Unit {0}) → (build_config_map K t r s).0 ≡ ok b
      → Present L config_map map_place (build_config_map K t r s).1
  unfolding build_config_map run ◌>>=◌
  built-Present s r there b h =
      subst
        (λ n.
          Present L config_map n
            (on_found K t.object_meta config_map (plan_at s)
              (if_controlled K t.object_meta config_map (plan_at s) (λ _ _. pure tt)) r
              (tor_config_map K t s).1).1)
        (key-tor_config_map K t s)
        (found-Makes L t.object_meta config_map (plan_at s) (λ e. cc)
          (config_map-Reports (tor_config_map K t s).0)
          (if_controlled K t.object_meta config_map (plan_at s) (λ _ _. pure tt))
          (unchanged-KeepsAt L t.object_meta _
            (guarded L t.object_meta config_map (plan_at s) (λ e. cc)
              (config_map-Reports (tor_config_map K t s).0))
            config_map (plan_at s))
          (tor_config_map K t s).1 r (λ o q. there-tor_config_map L _ t guard s o (there o q)) refl
          b h)

  pub reconcile_config_map-Makes : Makes (Present L config_map map_place) (reconcile_config_map K t)
  unfolding reconcile_config_map attempt config_map_name
  reconcile_config_map-Makes =
      Makes-named K _ (config_map_name t) _
        (suffixed-ne-empty t.object_meta.name "-tor-config" refl)
        (Makes-at _ (attempt (K.get config_map map_place)) (build_config_map K t) (λ s r e b h.
          built-Present (K.get config_map map_place s).1 r
            (λ o q.
              ap (λ c. c config_map map_place) (L.get-keeps config_map map_place s)
              ∙ found L config_map map_place s r o e q)
            b h))
