-- ===== src/Controllers/OnionService/Reconcile/Guarded.antt =====
-- The children of an OnionService keep a guarded invariant.
use tor_controller.Base.{ℕ, ◌+◌, String, ◌≡◌, refl, ap, ◌∙◌, some, List, [], ◌∷◌, str_eq}
use tor_controller.Base.Exec.{Result, ok, err, panic, Exec, pure, attempt, crash}
use tor_controller.Base.GoMap.{GoMap}
use tor_controller.Kube.Types.{NamespacedName, Secret}
use tor_controller.Kube.Client.{
  Kube, ServerLaws, secret, service, deployment, service_account, role, role_binding, key_of,
}
use tor_controller.Apis.Types.{OnionService, ProjectConfig, SecretReference}
use tor_controller.Apis.OnionServiceUtil.{
  service_account_name, role_name, service_name, service_metrics_name, deployment_name, secret_name,
  authorized_clients_secret_name,
}
use tor_controller.Controllers.Ensure.{Plan, named, wrapped, on_found, if_controlled, ensure}
use tor_controller.Controllers.Ensure.Keeps.{
  Keeps, Keeps-bind, Keeps-bind_at, Keeps-pure, Keeps-crash, Keeps-attempt, Keeps-return_error,
  Keeps-if, bind_keeps,
}
use tor_controller.Controllers.Ensure.Guarded.{
  Guarded, named-ensure-Keeps, on_found-Keeps, unchanged-KeepsAt,
}
use tor_controller.Controllers.Ensure.Foreign.{found}
use tor_controller.Controllers.Monitor.Keeps.{ensure_monitor-Keeps}
use tor_controller.Controllers.OnionService.Rbac.{
  reconcile_service_account, reconcile_role, reconcile_role_binding, service_account_plan,
  role_plan, role_binding_plan,
}
use tor_controller.Controllers.OnionService.Services.{
  reconcile_service, reconcile_metrics_service, reconcile_service_monitor, service_plan,
  metrics_service_plan, service_monitor_plan,
}
use tor_controller.Controllers.OnionService.Clients.{
  in_namespace, on_client, authorized_clients, add_client, client_key, clients_plan,
  build_clients_secret, reconcile_secret_authorized_clients, clients_secret,
}
use tor_controller.Controllers.OnionService.Secret.{
  generate_onion_v3_from_keys, secret_plan, without_keys, on_keys, reconcile_secret, onion_secret,
}
use tor_controller.Controllers.OnionService.Deployment.{
  onion_deployment, deployment_plan, reconcile_deployment,
}

-- The loop over the clients only reads secrets.
module _ (K : Kube) (P : K.State → Type 0) (onion : OnionService)
    (read : (m : NamespacedName) → Keeps P (K.get secret m)) where
  on_client-Keeps :
      (ref : SecretReference) (i : ℕ) (clients : GoMap String)
      (rest : GoMap String → Exec K.State K.Error (GoMap String))
      → ((m : GoMap String) → Keeps P (rest m))
      → (r : Result K.Error Secret) → Keeps P (on_client K onion ref i clients rest r)
  unfolding on_client
  on_client-Keeps ref i clients rest k (ok s) = k (add_client i (client_key ref s.contents) clients)
  on_client-Keeps ref i clients rest k (err e) = k clients
  on_client-Keeps ref i clients rest k panic = Keeps-crash

  authorized_clients-Keeps :
      (refs : List SecretReference) (i : ℕ) (clients : GoMap String)
      → Keeps P (authorized_clients K onion i refs clients)
  unfolding authorized_clients
  authorized_clients-Keeps [] i clients = Keeps-pure clients
  authorized_clients-Keeps (ref ∷ refs) i clients =
      Keeps-bind (attempt (K.get secret (in_namespace K onion ref.name)))
        (on_client K onion ref i clients (authorized_clients K onion (i + 1) refs))
        (Keeps-attempt (K.get secret (in_namespace K onion ref.name))
          (read (in_namespace K onion ref.name)))
        (on_client-Keeps ref i clients (authorized_clients K onion (i + 1) refs)
          (authorized_clients-Keeps refs (i + 1)))

-- The cluster is as it was.
contents-authorized_clients :
    {K : Kube} (L : ServerLaws K) (onion : OnionService) (s : K.State)
    → L.contents (authorized_clients K onion 0 onion.spec.authorized_clients [] s).1 ≡ L.contents s
contents-authorized_clients {K} L onion s =
    (authorized_clients-Keeps K (λ t. L.contents t ≡ L.contents s) onion
        (λ m. record { at = λ t h. L.get-keeps secret m t ∙ h }) onion.spec.authorized_clients 0
        []).at
      s refl

module _ {K : Kube} (L : ServerLaws K) (P : K.State → Type 0) (onion : OnionService)
    (g : Guarded L onion.object_meta P) where
  pub reconcile_service_account-Keeps : Keeps P (reconcile_service_account K onion)
  unfolding reconcile_service_account
  reconcile_service_account-Keeps =
      named-ensure-Keeps L onion.object_meta P g service_account (service_account_plan K onion)
        (service_account_name onion)

  pub reconcile_role-Keeps : Keeps P (reconcile_role K onion)
  unfolding reconcile_role
  reconcile_role-Keeps =
      named-ensure-Keeps L onion.object_meta P g role (role_plan K onion) (role_name onion)

  pub reconcile_role_binding-Keeps : Keeps P (reconcile_role_binding K onion)
  unfolding reconcile_role_binding
  reconcile_role_binding-Keeps =
      named-ensure-Keeps L onion.object_meta P g role_binding (role_binding_plan K onion)
        (role_name onion)

  pub reconcile_service-Keeps : Keeps P (reconcile_service K onion)
  unfolding reconcile_service
  reconcile_service-Keeps =
      named-ensure-Keeps L onion.object_meta P g service (service_plan K onion) (service_name onion)

  pub reconcile_metrics_service-Keeps : Keeps P (reconcile_metrics_service K onion)
  unfolding reconcile_metrics_service
  reconcile_metrics_service-Keeps =
      named-ensure-Keeps L onion.object_meta P g service (metrics_service_plan K onion)
        (service_metrics_name onion)

  pub reconcile_service_monitor-Keeps : Keeps P (reconcile_service_monitor K onion)
  unfolding reconcile_service_monitor
  reconcile_service_monitor-Keeps =
      ensure_monitor-Keeps L onion.object_meta P g onion.spec.service_monitor
        (service_monitor_plan K onion) (wrapped K "failed to delete ServiceMonitor %s")
        (service_metrics_name onion)

  pub reconcile_deployment-Keeps :
      (config : ProjectConfig) → Keeps P (reconcile_deployment K config onion)
  unfolding reconcile_deployment
  reconcile_deployment-Keeps config =
      Keeps-bind
        (named K (deployment_name onion)
          (ensure K onion.object_meta deployment (deployment_plan K config onion)))
        (λ _. pure (onion_deployment K config onion).1)
        (named-ensure-Keeps L onion.object_meta P g deployment (deployment_plan K config onion)
          (deployment_name onion))
        (λ _. Keeps-pure (onion_deployment K config onion).1)

  without_keys-Keeps : (r : Result K.Error Secret) → Keeps P (without_keys K r)
  unfolding without_keys
  without_keys-Keeps (ok s) = Keeps-pure tt
  without_keys-Keeps (err e) =
      Keeps-if (K.is_not_found e) _ _ (λ _. Keeps-crash)
        (λ _. Keeps-return_error (wrapped K "failed to get secret" e))
  without_keys-Keeps panic = Keeps-crash

  -- A secret that was read and is still there: the new one is created only if it was missing.
  there-keeps :
      (p : Plan K secret) (s : K.State) (r : Result K.Error Secret)
      → ((o : Secret) → r ≡ ok o → L.contents s secret (key_of secret p.desired) ≡ some o)
      → P s
      → P
          (on_found K onion.object_meta secret p
            (if_controlled K onion.object_meta secret p (λ _ _. pure tt))
            r
            s).1
  there-keeps p s r there h =
      on_found-Keeps L onion.object_meta P g secret p
        (if_controlled K onion.object_meta secret p (λ _ _. pure tt)) r s
        (unchanged-KeepsAt L onion.object_meta P g secret p) there h

  on_keys-keeps :
      (found : Result K.Error Secret) (keys : Result K.Error (String × String)) (s : K.State)
      → ((o : Secret)
          → found ≡ ok o
          → L.contents s secret
              (record { name = secret_name onion; namespace = onion.object_meta.namespace })
            ≡ some o)
      → P s
      → P (on_keys K onion found keys s).1
  unfolding on_keys onion_secret crash
  on_keys-keeps found (ok (public_key, private_key)) s there h =
      there-keeps (secret_plan K onion (generate_onion_v3_from_keys K public_key private_key)) s
        found there h
  on_keys-keeps found (err e) s there h = (without_keys-Keeps found).at s h
  on_keys-keeps found panic s there h = h

  abbrev secret_place : NamespacedName
  secret_place = record { name = secret_name onion; namespace = onion.object_meta.namespace }

  still_there :
      (m : NamespacedName) (s t : K.State) (found : Result K.Error Secret)
      → (attempt (K.get secret m) s).0 ≡ ok found
      → L.contents t ≡ L.contents (K.get secret m s).1
      → (o : Secret) → found ≡ ok o
      → L.contents t secret m ≡ some o
  still_there m s t r e q o f =
      ap (λ c. c secret m) (q ∙ L.get-keeps secret m s) ∙ found L secret m s r o e f

  pub reconcile_secret-Keeps : Keeps P (reconcile_secret K onion)
  unfolding reconcile_secret attempt
  reconcile_secret-Keeps =
      Keeps-if (str_eq (secret_name onion) "") _ _ (λ _. Keeps-pure tt)
        (λ _.
          Keeps-bind_at (attempt (K.get secret secret_place)) _
            (Keeps-attempt (K.get secret secret_place) (g.get secret secret_place))
            (λ s r h e.
              bind_keeps P (attempt K.generate_key) (on_keys K onion r)
                (K.get secret secret_place s).1
                (g.generate_key.at (K.get secret secret_place s).1
                  ((g.get secret secret_place).at s h))
                (λ keys _.
                  on_keys-keeps r keys (K.generate_key (K.get secret secret_place s).1).1
                    (still_there secret_place s _ r e
                      (L.generate_key-keeps (K.get secret secret_place s).1))
                    (g.generate_key.at (K.get secret secret_place s).1
                      ((g.get secret secret_place).at s h)))))

  abbrev clients_place : NamespacedName
  clients_place = in_namespace K onion (authorized_clients_secret_name onion)

  loop-Keeps :
      (refs : List SecretReference) (i : ℕ) (clients : GoMap String)
      → Keeps P (authorized_clients K onion i refs clients)
  loop-Keeps = authorized_clients-Keeps K P onion (g.get secret)

  build_clients_secret-keeps :
      (r : Result K.Error Secret) (s : K.State)
      → ((t : K.State)
          → L.contents t ≡ L.contents s
          → (o : Secret) → r ≡ ok o
          → L.contents t secret clients_place ≡ some o)
      → P s
      → P (build_clients_secret K onion r s).1
  unfolding build_clients_secret clients_secret
  build_clients_secret-keeps r s there h =
      bind_keeps P (authorized_clients K onion 0 onion.spec.authorized_clients []) _ s
        ((loop-Keeps onion.spec.authorized_clients 0 []).at s h)
        (λ clients _.
          there-keeps (clients_plan K onion clients)
            (authorized_clients K onion 0 onion.spec.authorized_clients [] s).1 r
            (there _ (contents-authorized_clients L onion s))
            ((loop-Keeps onion.spec.authorized_clients 0 []).at s h))

  pub reconcile_secret_authorized_clients-Keeps :
      Keeps P (reconcile_secret_authorized_clients K onion)
  unfolding reconcile_secret_authorized_clients attempt
  reconcile_secret_authorized_clients-Keeps =
      Keeps-if (str_eq (authorized_clients_secret_name onion) "") _ _ (λ _. Keeps-pure tt)
        (λ _.
          Keeps-bind_at (attempt (K.get secret clients_place)) (build_clients_secret K onion)
            (Keeps-attempt (K.get secret clients_place) (g.get secret clients_place))
            (λ s r h e.
              build_clients_secret-keeps r (K.get secret clients_place s).1
                (λ t q o f. still_there clients_place s t r e q o f)
                ((g.get secret clients_place).at s h)))
