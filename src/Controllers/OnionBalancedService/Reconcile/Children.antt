-- ===== src/Controllers/OnionBalancedService/Reconcile/Children.antt =====
-- The children that each part of the OnionBalancedService reconciler makes.
use Prim.Native.String.{len}
use mathlib.Core.Option.{some-ne-none, some-injective}
use tor_controller.Base.{
  ◌≡◌, ◌≢◌, refl, sym, ap, ◌∙◌, subst, true, false, Option, none, some, String, ltb, str_eq,
  if◌then◌else◌, Bool, ◌&&◌,
}
use tor_controller.Base.Exec.{Result, ok, err, panic, pure, raise, attempt, ◌>>=◌}
use tor_controller.Kube.Types.{NamespacedName, Secret}
use tor_controller.Kube.Client.{
  Kube, service, service_account, role, role_binding, secret, config_map, deployment, key_of,
  ServerLaws, ErrorLaws,
}
use tor_controller.Apis.Types.{OnionBalancedService, ProjectConfig}
use tor_controller.Apis.Format.{suffixed, suffixed-ne-empty}
use tor_controller.Apis.OnionBalancedServiceUtil.{
  role_name, service_account_name, service_name, secret_name, config_map_name, deployment_name,
}
use tor_controller.Controllers.Ensure.{wrapped}
use tor_controller.Controllers.Ensure.Keeps.{Keeps-pure}
use tor_controller.Controllers.Ensure.Foreign.{found}
use tor_controller.Controllers.Ensure.Guarded.{attempt-ok}
use tor_controller.Controllers.Ensure.Made.{
  place_in, wrapped-Reports, nonempty_of_len, named-ensure-Makes,
}
use tor_controller.Controllers.Ensure.Present.{
  Makes, Makes-first, Makes-named, Makes-at, Makes-crash, Makes-if, Present, continue-makes,
  ensure_created-Makes,
}
use tor_controller.Controllers.OnionBalancedService.Rbac.{
  reconcile_service_account, reconcile_role, reconcile_role_binding, service_account_plan,
  role_plan, role_binding_plan,
}
use tor_controller.Controllers.OnionBalancedService.Services.{reconcile_service, service_plan}
use tor_controller.Controllers.OnionBalancedService.ConfigMap.{
  config_map_plan, reconcile_config_map,
}
use tor_controller.Controllers.OnionBalancedService.Secret.{
  balance_secret, new_secret, return_balanced, on_created_secret, create_secret, on_secret,
  reconcile_secret,
}
use tor_controller.Controllers.OnionBalancedService.Deployment.{
  reconcile_deployment, deployment_plan, balance_deployment,
}

either :
    (a b : Bool) (x y : String)
    → (b ≡ true → str_eq x "" ≡ false)
    → str_eq y "" ≡ false
    → str_eq (if a && b then x else y) "" ≡ false
either true true x y p q = p refl
either true false x y p q = q
either false b x y p q = q

raise-ok : {S E A : Type 0} (e : E) (s : S) (a : A) → (raise {A = A} e s).0 ≢ ok a
unfolding raise
raise-ok e s a h = cc

module _ {K : Kube} (L : ServerLaws K) (E : ErrorLaws K) (o : OnionBalancedService) where
  pub reconcile_service_account-Makes :
      Makes
        (Present L service_account (place_in o.object_meta (service_account_name o)))
        (reconcile_service_account K o)
  unfolding reconcile_service_account service_account_name
  reconcile_service_account-Makes =
      named-ensure-Makes L o.object_meta service_account (service_account_plan K o) (λ h. cc)
        (wrapped-Reports K E service_account (service_account_plan K o) _ _ refl refl) refl
        o.object_meta.name "-tor-sa" refl refl

  pub reconcile_role-Makes :
      Makes (Present L role (place_in o.object_meta (role_name o))) (reconcile_role K o)
  unfolding reconcile_role role_name
  reconcile_role-Makes =
      named-ensure-Makes L o.object_meta role (role_plan K o) (λ h. cc)
        (wrapped-Reports K E role (role_plan K o) _ _ refl refl) refl o.object_meta.name "-tor-role"
        refl refl

  pub reconcile_role_binding-Makes :
      Makes
        (Present L role_binding (place_in o.object_meta (role_name o)))
        (reconcile_role_binding K o)
  unfolding reconcile_role_binding role_name
  reconcile_role_binding-Makes =
      named-ensure-Makes L o.object_meta role_binding (role_binding_plan K o) (λ h. cc)
        (wrapped-Reports K E role_binding (role_binding_plan K o) _ _ refl refl) refl
        o.object_meta.name "-tor-role" refl refl

  pub reconcile_service-Makes :
      Makes (Present L service (place_in o.object_meta (service_name o))) (reconcile_service K o)
  unfolding reconcile_service service_name
  reconcile_service-Makes =
      named-ensure-Makes L o.object_meta service (service_plan K o) (λ h. cc)
        (wrapped-Reports K E service (service_plan K o) _ _ refl refl) refl o.object_meta.name
        "-tor-svc" refl refl

  pub reconcile_deployment-Makes :
      (config : ProjectConfig)
      → Makes
          (Present L deployment (place_in o.object_meta (deployment_name o)))
          (reconcile_deployment K config o)
  unfolding reconcile_deployment deployment_name
  reconcile_deployment-Makes config =
      Makes-first _ _ (λ _. pure (balance_deployment K config o).1)
        (named-ensure-Makes L o.object_meta deployment (deployment_plan K config o) (λ h. cc)
          (wrapped-Reports K E deployment (deployment_plan K config o) _ _ refl refl) refl
          o.object_meta.name "-tor-daemon" refl refl)
        (λ _. Keeps-pure (balance_deployment K config o).1)

  pub reconcile_config_map-Makes :
      Makes
        (Present L config_map (place_in o.object_meta (config_map_name o)))
        (reconcile_config_map K o)
  unfolding reconcile_config_map config_map_name
  reconcile_config_map-Makes =
      Makes-named K _ (config_map_name o) _
        (suffixed-ne-empty o.object_meta.name "-tor-config" refl)
        (ensure_created-Makes L o.object_meta config_map (config_map_plan K o) (λ h. cc)
          (wrapped-Reports K E config_map (config_map_plan K o) _ _ refl refl) refl)

  abbrev secret_place : NamespacedName
  secret_place = place_in o.object_meta (secret_name o)

  abbrev There : K.State → Type 0
  There = Present L secret secret_place

  key-new_secret :
      (keys : Result K.Error (String × String)) (x : Secret)
      → new_secret K o keys ≡ some x
      → key_of secret x ≡ secret_place
  unfolding new_secret balance_secret
  key-new_secret (ok (public_key, private_key)) x h =
      ap (key_of secret) (sym (some-injective _ x h))
  key-new_secret (err e) x h = absurd (cc)
  key-new_secret panic x h = absurd (cc)

  return_balanced-Makes : (e : Option K.Error) → e ≢ none → Makes There (return_balanced K o e)
  unfolding return_balanced
  return_balanced-Makes none d = absurd (d refl)
  return_balanced-Makes (some e) d = record { at = λ s b h. absurd (let q = h in raise-ok e s b q) }

  created-Present :
      (x : Secret) (s : K.State)
      → key_of secret x ≡ secret_place
      → (r : Result K.Error Secret) → (attempt (K.create secret x) s).0 ≡ ok r
      → (b : OnionBalancedService) → (on_created_secret K o r (K.create secret x s).1).0 ≡ ok b
      → There (on_created_secret K o r (K.create secret x s).1).1
  unfolding on_created_secret pure
  created-Present x s e (ok y) q b h =
      subst (λ n. Present L secret n (K.create secret x s).1) e
        (λ g.
          some-ne-none y
            (sym (L.create-stored secret x y s (attempt-ok (K.create secret x) s y q)) ∙ g))
  created-Present x s e (err z) q b h =
      (return_balanced-Makes (wrapped K "failed to create secret" z)
          (E.wrap-some z "failed to create secret")).at
        (K.create secret x s).1 b h
  created-Present x s e panic q b h = (Makes-crash There).at (K.create secret x s).1 b h

  create_secret-Makes :
      (new : Option Secret)
      → ((x : Secret) → new ≡ some x → key_of secret x ≡ secret_place)
      → Makes There (create_secret K o new)
  unfolding create_secret attempt
  create_secret-Makes none k = Makes-crash There
  create_secret-Makes (some x) k =
      Makes-at There (attempt (K.create secret x)) (on_created_secret K o)
        (λ s. created-Present x s (k x refl))

  on_secret-Present :
      (new : Option Secret)
      → ((x : Secret) → new ≡ some x → key_of secret x ≡ secret_place)
      → (r : Result K.Error Secret) (s : K.State)
      → ((x : Secret) → r ≡ ok x → L.contents s secret secret_place ≡ some x)
      → (b : OnionBalancedService) → (on_secret K o new r s).0 ≡ ok b
      → There (on_secret K o new r s).1
  unfolding on_secret pure
  on_secret-Present new k (ok x) s there b h = λ g. some-ne-none x (sym (there x refl) ∙ g)
  on_secret-Present new k (err e) s there b h =
      (Makes-if There (K.is_not_found e) _ _ (create_secret-Makes new k) (
          return_balanced-Makes (wrapped K "failed to get secret" e)
            (E.wrap-some e "failed to get secret"))).at
        s b h
  on_secret-Present new k panic s there b h = (Makes-crash There).at s b h

  secret_named : str_eq (secret_name o) "" ≡ false
  unfolding secret_name
  secret_named =
      either _ (ltb 0 (len o.spec.private_key_secret.name)) o.spec.private_key_secret.name
        (suffixed o.object_meta.name "-tor-secret") (nonempty_of_len o.spec.private_key_secret.name)
        (suffixed-ne-empty o.object_meta.name "-tor-secret" refl)

  pub reconcile_secret-Makes :
      Makes (Present L secret (place_in o.object_meta (secret_name o))) (reconcile_secret K o)
  unfolding reconcile_secret attempt ◌>>=◌
  reconcile_secret-Makes = rw secret_named (
      Makes-at There (attempt (K.get secret secret_place)) _ (λ s found_at e b h.
        let t = (K.get secret secret_place s).1 in
        continue-makes There (λ keys. on_secret K o (new_secret K o keys) found_at)
          (attempt K.generate_key t).0 (attempt K.generate_key t).1
          (λ keys q c g.
            on_secret-Present (new_secret K o keys) (key-new_secret keys) found_at
              (K.generate_key t).1
              (λ x z.
                ap (λ m. m secret secret_place) (L.generate_key-keeps t)
                ∙ (ap (λ m. m secret secret_place) (L.get-keeps secret secret_place s)
                    ∙ found L secret secret_place s found_at x e z))
              c g)
          b h))
