-- ===== src/Controllers/OnionService/Reconcile/Children.antt =====
-- The children that each part of the OnionService reconciler makes.
use Prim.Native.String.{len}
use tor_controller.Base.{
  ◌≡◌, refl, sym, ap, ◌∙◌, false, some, String, ltb, str_eq, Bool-cases, inl, inr,
}
use mathlib.Core.Option.{some-ne-none}
use tor_controller.Base.Exec.{Result, ok, err, panic, pure, attempt, ◌>>=◌}
use tor_controller.Kube.Types.{NamespacedName, Secret}
use tor_controller.Kube.Client.{
  Kube, service, service_account, role, role_binding, secret, deployment, ServerLaws, ErrorLaws,
}
use tor_controller.Apis.Types.{OnionService, ProjectConfig}
use tor_controller.Apis.Format.{suffixed-ne-empty}
use tor_controller.Apis.OnionServiceUtil.{
  role_name, service_account_name, service_name, secret_name, deployment_name,
}
use tor_controller.Controllers.Ensure.{wrapped, if_controlled}
use tor_controller.Controllers.Ensure.Keeps.{Keeps-pure}
use tor_controller.Controllers.Ensure.Foreign.{found}
use tor_controller.Controllers.Ensure.Guarded.{unchanged-KeepsAt}
use tor_controller.Controllers.Ensure.Made.{
  place_in, wrapped-Reports, replaced-Reports, nonempty_of_len, named-ensure-Makes,
}
use tor_controller.Controllers.Ensure.Present.{
  Makes, Makes-first, Makes-named, Makes-at, Makes-return_error, Makes-crash, Makes-if, Present,
  guarded, found-Makes, continue-makes,
}
use tor_controller.Controllers.OnionService.Rbac.{
  reconcile_service_account, reconcile_role, reconcile_role_binding, service_account_plan,
  role_plan, role_binding_plan,
}
use tor_controller.Controllers.OnionService.Services.{reconcile_service, service_plan}
use tor_controller.Controllers.OnionService.Secret.{
  reconcile_secret, on_keys, without_keys, secret_plan, generate_onion_v3_from_keys,
}
use tor_controller.Controllers.OnionService.Deployment.{
  reconcile_deployment, deployment_plan, onion_deployment,
}

module _ {K : Kube} (L : ServerLaws K) (E : ErrorLaws K) (o : OnionService) where
  pub reconcile_service_account-Makes :
      Makes
        (Present L service_account (place_in o.object_meta (service_account_name o)))
        (reconcile_service_account K o)
  unfolding reconcile_service_account service_account_name
  reconcile_service_account-Makes =
      named-ensure-Makes L o.object_meta service_account (service_account_plan K o) (λ h. cc)
        (wrapped-Reports K E service_account (service_account_plan K o) _ _ refl refl) refl
        o.object_meta.name "-tor-sa" refl refl

  pub reconcile_role-Makes :
      Makes (Present L role (place_in o.object_meta (role_name o))) (reconcile_role K o)
  unfolding reconcile_role role_name
  reconcile_role-Makes =
      named-ensure-Makes L o.object_meta role (role_plan K o) (λ h. cc)
        (wrapped-Reports K E role (role_plan K o) _ _ refl refl) refl o.object_meta.name "-tor-role"
        refl refl

  pub reconcile_role_binding-Makes :
      Makes
        (Present L role_binding (place_in o.object_meta (role_name o)))
        (reconcile_role_binding K o)
  unfolding reconcile_role_binding role_name
  reconcile_role_binding-Makes =
      named-ensure-Makes L o.object_meta role_binding (role_binding_plan K o) (λ h. cc)
        (wrapped-Reports K E role_binding (role_binding_plan K o) _ _ refl refl) refl
        o.object_meta.name "-tor-role" refl refl

  pub reconcile_service-Makes :
      Makes (Present L service (place_in o.object_meta (service_name o))) (reconcile_service K o)
  unfolding reconcile_service service_name
  reconcile_service-Makes =
      named-ensure-Makes L o.object_meta service (service_plan K o) (λ h. cc)
        (wrapped-Reports K E service (service_plan K o) _ _ refl refl) refl o.object_meta.name
        "-tor-svc" refl refl

  pub reconcile_deployment-Makes :
      (config : ProjectConfig)
      → Makes
          (Present L deployment (place_in o.object_meta (deployment_name o)))
          (reconcile_deployment K config o)
  unfolding reconcile_deployment deployment_name
  reconcile_deployment-Makes config =
      Makes-first _ _ (λ _. pure (onion_deployment K config o).1)
        (named-ensure-Makes L o.object_meta deployment (deployment_plan K config o) (λ h. cc)
          (replaced-Reports K deployment (deployment_plan K config o) _ _ refl refl) refl
          o.object_meta.name "-tor-daemon" refl refl)
        (λ _. Keeps-pure (onion_deployment K config o).1)

  abbrev pub secret_place : NamespacedName
  secret_place = place_in o.object_meta (secret_name o)

  abbrev There : K.State → Result K.Error Secret → Type 0
  There s found = (x : Secret) → found ≡ ok x → L.contents s secret secret_place ≡ some x

  without_keys-Present :
      (found : Result K.Error Secret) (s : K.State)
      → There s found
      → (b : Unit {0}) → (without_keys K found s).0 ≡ ok b
      → Present L secret secret_place (without_keys K found s).1
  unfolding without_keys pure
  without_keys-Present (ok x) s there b h = λ g. some-ne-none x (sym (there x refl) ∙ g)
  without_keys-Present (err e) s there b h =
      (Makes-if (Present L secret secret_place) (K.is_not_found e) _ _
          (Makes-crash (Present L secret secret_place))
          (Makes-return_error (Present L secret secret_place) (wrapped K "failed to get secret" e)
            (E.wrap-some e "failed to get secret"))).at
        s b h
  without_keys-Present panic s there b h = (Makes-crash (Present L secret secret_place)).at s b h

  on_keys-Present :
      (found : Result K.Error Secret) (keys : Result K.Error (String × String)) (s : K.State)
      → There s found
      → (b : Unit {0}) → (on_keys K o found keys s).0 ≡ ok b
      → Present L secret secret_place (on_keys K o found keys s).1
  unfolding on_keys
  on_keys-Present found (ok (public_key, private_key)) s there b h =
      let plan = secret_plan K o (generate_onion_v3_from_keys K public_key private_key) in
      let reports = wrapped-Reports K E secret plan _ _ refl refl in
      found-Makes L o.object_meta secret plan (λ e. cc) reports
        (if_controlled K o.object_meta secret plan (λ _ _. pure tt))
        (unchanged-KeepsAt L o.object_meta _ (guarded L o.object_meta secret plan (λ e. cc) reports)
          secret plan)
        s found there refl b h
  on_keys-Present found (err e) s there b h = without_keys-Present found s there b h
  on_keys-Present found panic s there b h = (Makes-crash (Present L secret secret_place)).at s b h

  secret_named : str_eq (secret_name o) "" ≡ false
  unfolding secret_name
  secret_named = elim (Bool-cases (ltb 0 (len o.spec.private_key_secret.name))) [
    | inl e ↦ rw e (nonempty_of_len o.spec.private_key_secret.name e)
    | inr e ↦ rw e (suffixed-ne-empty o.object_meta.name "-tor-secret" refl)
  ]

  -- The keys are made between the read of the secret and its creation.
  pub reconcile_secret-Makes : Makes (Present L secret secret_place) (reconcile_secret K o)
  unfolding reconcile_secret attempt ◌>>=◌
  reconcile_secret-Makes = Makes-named K _ (secret_name o) _ secret_named (
      Makes-at _ (attempt (K.get secret secret_place)) _ (λ s found_at e b h.
        let t = (K.get secret secret_place s).1 in
        continue-makes (Present L secret secret_place) (on_keys K o found_at)
          (attempt K.generate_key t).0 (attempt K.generate_key t).1
          (λ keys q c g.
            on_keys-Present found_at keys (K.generate_key t).1
              (λ x z.
                ap (λ m. m secret secret_place) (L.generate_key-keeps t)
                ∙ (ap (λ m. m secret secret_place) (L.get-keeps secret secret_place s)
                    ∙ found L secret secret_place s found_at x e z))
              c g)
          b h))
