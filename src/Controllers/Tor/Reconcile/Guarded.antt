-- ===== src/Controllers/Tor/Reconcile/Guarded.antt =====
-- A guarded invariant survives every child of the Tor reconciler.
use tor_controller.Controllers.Tor.Secret.{on_reference}
use tor_controller.Controllers.Tor.Secret.{dereferenced, password_config}
use tor_controller.Controllers.Tor.Torfile.Hashes.{
  tor_config_map-keeps, contents-tor_config_map, key-tor_config_map,
}
use tor_controller.Controllers.Ensure.Guarded.{unchanged-KeepsAt}
use tor_controller.Kube.Client.{service_account, role, role_binding}
use tor_controller.Base.{String, ◌≡◌, some, none, Option, List, [], ◌∷◌, str_eq, ◌∙◌, ap}
use tor_controller.Base.Exec.{Result, ok, err, panic, Exec, pure, run, attempt, ◌>>=◌}
use tor_controller.Base.GoMap.{lookup}
use tor_controller.Kube.Types.{Secret, ConfigMap, NamespacedName}
use tor_controller.Kube.Client.{
  Kube, Kind, config_map, secret, deployment, service, ServerLaws, key_of,
}
use tor_controller.Apis.Types.{Tor, KeySelector, ProjectConfig}
use tor_controller.Apis.TorUtil.{
  role_name, service_account_name, service_name, service_metrics_name, config_map_name, secret_name,
  deployment_name,
}
use tor_controller.Controllers.Ensure.{Plan, named, if_controlled, ensure, wrapped}
use tor_controller.Controllers.Ensure.Keeps.{
  Keeps, Keeps-bind, Keeps-bind_at, Keeps-if, Keeps-pure, Keeps-crash, Keeps-raise, Keeps-attempt,
}
use tor_controller.Controllers.Ensure.Guarded.{
  Guarded, ensure-Keeps, on_found-Keeps, found-after_get,
}
use tor_controller.Controllers.Monitor.Keeps.{ensure_monitor-Keeps}
use tor_controller.Controllers.Tor.Rbac.{
  reconcile_service_account, reconcile_role, reconcile_role_binding, service_account_plan,
  role_plan, role_binding_plan,
}
use tor_controller.Controllers.Tor.Services.{
  reconcile_service, reconcile_metrics_service, reconcile_service_monitor, service_plan,
  metrics_service_plan, service_monitor_plan,
}
use tor_controller.Controllers.Tor.Torfile.{
  build_config_map, tor_config_map, config_map_plan, reconcile_config_map,
}
use tor_controller.Controllers.Tor.Secret.{
  add_references, return_tor, on_new_secret, on_secret, tor_secret, generate_random_password,
  reconcile_control_secret, in_namespace, add_secrets, listed, with_generated,
}
use tor_controller.Controllers.Tor.Deployment.{
  reconcile_deployment, deployment_plan, tor_deployment,
}

module _ {K : Kube} (L : ServerLaws K) (P : K.State → Type 0) (tor : Tor)
    (g : Guarded L tor.object_meta P) where
  pub plan-Keeps :
      (name : String) (k : Kind) (p : Plan K k)
      → Keeps P (named K name (ensure K tor.object_meta k p))
  plan-Keeps name k p =
      Keeps-if (str_eq name "") (pure tt) (ensure K tor.object_meta k p) (λ _. Keeps-pure tt)
        (λ _. ensure-Keeps L tor.object_meta P g k p)

  pub reconcile_service_account-Keeps : Keeps P (reconcile_service_account K tor)
  unfolding reconcile_service_account
  reconcile_service_account-Keeps =
      plan-Keeps (service_account_name tor) service_account (service_account_plan K tor)

  pub reconcile_role-Keeps : Keeps P (reconcile_role K tor)
  unfolding reconcile_role
  reconcile_role-Keeps = plan-Keeps (role_name tor) role (role_plan K tor)

  pub reconcile_role_binding-Keeps : Keeps P (reconcile_role_binding K tor)
  unfolding reconcile_role_binding
  reconcile_role_binding-Keeps = plan-Keeps (role_name tor) role_binding (role_binding_plan K tor)

  pub reconcile_service-Keeps : Keeps P (reconcile_service K tor)
  unfolding reconcile_service
  reconcile_service-Keeps = plan-Keeps (service_name tor) service (service_plan K tor)

  pub reconcile_metrics_service-Keeps : Keeps P (reconcile_metrics_service K tor)
  unfolding reconcile_metrics_service
  reconcile_metrics_service-Keeps =
      plan-Keeps (service_metrics_name tor) service (metrics_service_plan K tor)

  pub reconcile_service_monitor-Keeps : Keeps P (reconcile_service_monitor K tor)
  unfolding reconcile_service_monitor
  reconcile_service_monitor-Keeps =
      ensure_monitor-Keeps L tor.object_meta P g tor.spec.service_monitor
        (service_monitor_plan K tor) (wrapped K "failed to delete Service %#v")
        (service_metrics_name tor)

  pub reconcile_deployment-Keeps :
      (config : ProjectConfig) → Keeps P (reconcile_deployment K config tor)
  unfolding reconcile_deployment
  reconcile_deployment-Keeps config =
      Keeps-bind
        (named K (deployment_name tor)
          (ensure K tor.object_meta deployment (deployment_plan K config tor)))
        (λ _. pure (tor_deployment K config tor).1)
        (plan-Keeps (deployment_name tor) deployment (deployment_plan K config tor))
        (λ _. Keeps-pure (tor_deployment K config tor).1)

  abbrev pub config_map_key : NamespacedName
  config_map_key = record { name = config_map_name tor; namespace = tor.object_meta.namespace }

  -- The map is built after the read, and the object that was read is still there.
  pub there-tor_config_map :
      (s : K.State) (o : ConfigMap)
      → L.contents s config_map config_map_key ≡ some o
      → L.contents
          (tor_config_map K tor s).1
          config_map
          (key_of config_map (tor_config_map K tor s).0)
        ≡ some o
  there-tor_config_map s o h =
      ap (L.contents (tor_config_map K tor s).1 config_map) (key-tor_config_map K tor s)
      ∙ ap (λ c. c config_map config_map_key) (contents-tor_config_map L tor s)
      ∙ h

  built-keeps :
      (s : K.State) (r : Result K.Error ConfigMap)
      → ((o : ConfigMap) → r ≡ ok o → L.contents s config_map config_map_key ≡ some o)
      → P s
      → P (build_config_map K tor r s).1
  unfolding build_config_map run ◌>>=◌
  built-keeps s r there h =
      on_found-Keeps L tor.object_meta P g config_map (config_map_plan K (tor_config_map K tor s).0)
        (if_controlled K tor.object_meta config_map (config_map_plan K (tor_config_map K tor s).0)
          (λ _ _. pure tt))
        r (tor_config_map K tor s).1
        (unchanged-KeepsAt L tor.object_meta P g config_map
          (config_map_plan K (tor_config_map K tor s).0))
        (λ o q. there-tor_config_map s o (there o q))
        (tor_config_map-keeps K P g.read_random tor s h)

  pub reconcile_config_map-Keeps : Keeps P (reconcile_config_map K tor)
  unfolding reconcile_config_map attempt
  reconcile_config_map-Keeps =
      Keeps-if (str_eq (config_map_name tor) "") _ _ (λ _. Keeps-pure tt)
        (λ _.
          Keeps-bind_at (attempt (K.get config_map config_map_key)) (build_config_map K tor)
            (Keeps-attempt (K.get config_map config_map_key) (g.get config_map config_map_key))
            (λ s r h e.
              built-keeps (K.get config_map config_map_key s).1 r
                (λ o q.
                  found-after_get L tor.object_meta P g config_map
                    (config_map_plan K (tor_config_map K tor s).0) config_map_key s r o e q)
                ((g.get config_map config_map_key).at s h)))

  return_tor-Keeps : (t : Tor) (e : Option K.Error) → Keeps P (return_tor K t e)
  unfolding return_tor
  return_tor-Keeps t none = Keeps-pure t
  return_tor-Keeps t (some e) = Keeps-raise e

  on_reference-Keeps :
      (ref : KeySelector) (t : Tor) (rest : Tor → Exec K.State K.Error Tor)
      → ((u : Tor) → Keeps P (rest u))
      → (r : Result K.Error Secret) → Keeps P (on_reference K ref t rest r)
  unfolding on_reference
  on_reference-Keeps ref t rest k (ok s) = k (add_secrets t (listed (lookup ref.key s.contents)))
  on_reference-Keeps ref t rest k (err e) =
      return_tor-Keeps t (wrapped K "failed to get secret %s" e)
  on_reference-Keeps ref t rest k panic = Keeps-crash

  add_references-Keeps :
      (refs : List KeySelector) (generated : Secret) (t : Tor)
      → Keeps P (add_references K refs generated t)
  unfolding add_references
  add_references-Keeps [] generated t = Keeps-pure (with_generated generated t)
  add_references-Keeps (ref ∷ refs) generated t =
      Keeps-bind (attempt (K.get secret (in_namespace K t ref.name)))
        (on_reference K ref t (add_references K refs generated))
        (Keeps-attempt (K.get secret (in_namespace K t ref.name))
          (g.get secret (in_namespace K t ref.name)))
        (on_reference-Keeps ref t (add_references K refs generated)
          (add_references-Keeps refs generated))

  on_new_secret-Keeps : (r : Result K.Error Secret) → Keeps P (on_new_secret K tor r)
  unfolding on_new_secret
  on_new_secret-Keeps (ok s) = add_references-Keeps tor.spec.control.secret_ref s tor
  on_new_secret-Keeps (err e) = return_tor-Keeps tor (wrapped K "failed to create secret %#v" e)
  on_new_secret-Keeps panic = Keeps-crash

  on_secret-Keeps : (new : Secret) (r : Result K.Error Secret) → Keeps P (on_secret K tor new r)
  unfolding on_secret
  on_secret-Keeps new (ok s) = add_references-Keeps tor.spec.control.secret_ref s tor
  on_secret-Keeps new (err e) =
      Keeps-if (K.is_not_found e) _ _
        (λ _.
          Keeps-bind (attempt (K.create secret new)) (on_new_secret K tor)
            (Keeps-attempt (K.create secret new) (g.create secret new)) on_new_secret-Keeps)
        (λ _. return_tor-Keeps tor (wrapped K "failed to get secret %s" e))
  on_secret-Keeps new panic = Keeps-crash

  dereferenced-keeps : (r : Option String × K.State) → P r.1 → P (dereferenced K r).1
  dereferenced-keeps (none, s) h = h
  dereferenced-keeps (some p, s) h = h

  generate_random_password-Keeps : Keeps P (generate_random_password K)
  unfolding generate_random_password
  generate_random_password-Keeps = record {
    at = λ s h.
        dereferenced-keeps (K.generate_password password_config s)
          (g.generate_password password_config s h);
  }

  pub reconcile_control_secret-Keeps : Keeps P (reconcile_control_secret K tor)
  unfolding reconcile_control_secret
  reconcile_control_secret-Keeps =
      Keeps-if (str_eq (secret_name tor) "") _ _ (λ _. Keeps-pure tor)
        (λ _.
          Keeps-bind (attempt (K.get secret (in_namespace K tor (secret_name tor)))) _
            (Keeps-attempt (K.get secret (in_namespace K tor (secret_name tor)))
              (g.get secret (in_namespace K tor (secret_name tor))))
            (λ found.
              Keeps-bind (generate_random_password K) _ generate_random_password-Keeps
                (λ password. on_secret-Keeps (tor_secret K tor password) found)))
