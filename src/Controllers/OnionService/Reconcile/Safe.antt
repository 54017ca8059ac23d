-- ===== src/Controllers/OnionService/Reconcile/Safe.antt =====
-- The OnionService reconciler as a whole: what it leaves alone.
use tor_controller.Base.{
  ◌≡◌, refl, sym, ap, subst, ◌∙◌, String, false, some, none, Option, List, [], ◌∷◌,
}
use tor_controller.Base.GoMap.{GoMap}
use tor_controller.Base.Exec.{Result, ok, err, panic, pure, attempt, crash, ◌>>◌}
use tor_controller.Kube.Types.{NamespacedName, ObjectMeta, Service}
use tor_controller.Kube.Client.{
  Kube, Kind, Object, onion_service, service, deployment, meta, key_of, ServerLaws, Apart,
}
use tor_controller.Apis.Types.{OnionService, ServiceRule, ProjectConfig}
use tor_controller.Apis.OnionServiceUtil.{service_name, deployment_name}
use tor_controller.Controllers.Equal.{port_exists}
use tor_controller.Controllers.Ensure.{Done, wrapped, named, ensure}
use tor_controller.Controllers.Ensure.Keeps.{
  Keeps, Keeps-bind, Keeps-bind_at, Keeps-pure, Keeps-crash, Keeps-attempt, Keeps-return_error,
  Keeps-if, bind_keeps,
}
use tor_controller.Controllers.Ensure.Yields.{Yields, Yields-pure, Yields-bind, Yields-then}
use tor_controller.Controllers.Ensure.Guarded.{Guarded, checked-Keeps}
use tor_controller.Controllers.Ensure.Foreign.{
  Holds, Holds-guarded, get-Holds, returned-Holds, found,
}
use tor_controller.Controllers.OnionService.Rbac.{
  reconcile_service_account, reconcile_role, reconcile_role_binding,
}
use tor_controller.Controllers.OnionService.Services.{
  reconcile_service, reconcile_metrics_service, reconcile_service_monitor,
}
use tor_controller.Controllers.OnionService.Clients.{reconcile_secret_authorized_clients}
use tor_controller.Controllers.OnionService.Secret.{reconcile_secret}
use tor_controller.Controllers.OnionService.Deployment.{
  onion_deployment, deployment_plan, reconcile_deployment, shared_labels,
}
use tor_controller.Controllers.OnionService.Reconcile.{
  asked_port, on_target, check_rules, reconcile_children, with_ip, write_status, on_service,
  update_status, on_onion_service, reconcile, default_cluster_ip,
}
use tor_controller.Controllers.OnionService.Reconcile.Guarded.{
  reconcile_service_account-Keeps, reconcile_role-Keeps, reconcile_role_binding-Keeps,
  reconcile_service-Keeps, reconcile_secret-Keeps, reconcile_secret_authorized_clients-Keeps,
  reconcile_deployment-Keeps, reconcile_metrics_service-Keeps, reconcile_service_monitor-Keeps,
}

abbrev pub SameMeta : ObjectMeta → OnionService → Type 0
SameMeta m o = o.object_meta ≡ m

shared_labels-SameMeta :
    (o : OnionService) (labels : Option (GoMap String))
    → SameMeta o.object_meta (shared_labels o labels)
shared_labels-SameMeta o none = refl
shared_labels-SameMeta o (some labels) = refl

reconcile_deployment-Yields :
    (K : Kube) (config : ProjectConfig) (o : OnionService)
    → Yields (SameMeta o.object_meta) (reconcile_deployment K config o)
unfolding reconcile_deployment onion_deployment
reconcile_deployment-Yields K config o =
    Yields-bind
      (named K (deployment_name o) (ensure K o.object_meta deployment (deployment_plan K config o)))
      (λ _. pure (onion_deployment K config o).1)
      (λ _.
        Yields-pure (onion_deployment K config o).1
          (shared_labels-SameMeta o o.spec.template.object_meta.labels))

pub reconcile_children-Yields :
    (K : Kube) (config : ProjectConfig) (o : OnionService)
    → Yields (SameMeta o.object_meta) (reconcile_children K config o)
unfolding reconcile_children
reconcile_children-Yields K config o = Yields-bind (reconcile_secret_authorized_clients K o) _ (λ _.
    Yields-bind (reconcile_secret K o) _ (λ _. Yields-bind (reconcile_service_account K o) _ (λ _.
      Yields-bind (reconcile_role K o) _ (λ _. Yields-bind (reconcile_role_binding K o) _ (λ _.
        Yields-bind (reconcile_service K o) _ (λ _.
          Yields-then (reconcile_deployment K config o) _ (reconcile_deployment-Yields K config o)
            (λ u e.
              Yields-bind (reconcile_metrics_service K u) _
                (λ _. Yields-bind (reconcile_service_monitor K u) _ (λ _. Yields-pure u e)))))))))

module _ {K : Kube} (L : ServerLaws K) (P : K.State → Type 0) (config : ProjectConfig) where
  last_children-Keeps :
      (o : OnionService)
      → Guarded L o.object_meta P
      → Keeps P (reconcile_metrics_service K o >> (reconcile_service_monitor K o >> pure o))
  last_children-Keeps o g =
      Keeps-bind (reconcile_metrics_service K o) _ (reconcile_metrics_service-Keeps L P o g) (λ _.
        Keeps-bind (reconcile_service_monitor K o) _ (reconcile_service_monitor-Keeps L P o g)
          (λ _. Keeps-pure o))

  reconcile_children-Keeps :
      (o : OnionService) → Guarded L o.object_meta P → Keeps P (reconcile_children K config o)
  unfolding reconcile_children
  reconcile_children-Keeps o g =
      Keeps-bind (reconcile_secret_authorized_clients K o) _
        (reconcile_secret_authorized_clients-Keeps L P o g)
        (λ _. Keeps-bind (reconcile_secret K o) _ (reconcile_secret-Keeps L P o g) (λ _.
          Keeps-bind (reconcile_service_account K o) _ (reconcile_service_account-Keeps L P o g)
            (λ _. Keeps-bind (reconcile_role K o) _ (reconcile_role-Keeps L P o g) (λ _.
              Keeps-bind (reconcile_role_binding K o) _ (reconcile_role_binding-Keeps L P o g) (λ _.
                Keeps-bind (reconcile_service K o) _ (reconcile_service-Keeps L P o g) (λ _.
                  Keeps-bind_at (reconcile_deployment K config o) _
                    (reconcile_deployment-Keeps L P o g config)
                    (λ s u h r.
                      (last_children-Keeps u (
                          subst (λ z. Guarded L z P)
                            (sym ((reconcile_deployment-Yields K config o).at s u r)) g)).at
                        _ ((reconcile_deployment-Keeps L P o g config).at s h))))))))

  write_status-Keeps :
      (o : OnionService) (ip : String)
      → Keeps P (K.update_status onion_service (with_ip K config o ip))
      → Keeps P (write_status K config o ip)
  unfolding write_status
  write_status-Keeps o ip u =
      Keeps-bind (attempt (K.update_status onion_service (with_ip K config o ip))) _
        (Keeps-attempt (K.update_status onion_service (with_ip K config o ip)) u)
        (checked-Keeps K P (wrapped K "unable to update OnionService status"))

  on_service-Keeps :
      (o : OnionService)
      → ((ip : String) → Keeps P (K.update_status onion_service (with_ip K config o ip)))
      → (r : Result K.Error Service) → Keeps P (on_service K config o r)
  unfolding on_service
  on_service-Keeps o u (ok s) = write_status-Keeps o s.spec.cluster_ip (u s.spec.cluster_ip)
  on_service-Keeps o u (err e) =
      Keeps-if (K.is_not_found e) _ _
        (λ _. write_status-Keeps o default_cluster_ip (u default_cluster_ip))
        (λ _. Keeps-return_error (wrapped K "unable to get service" e))
  on_service-Keeps o u panic = Keeps-crash

  abbrev service_place : OnionService → NamespacedName
  service_place o = record { name = service_name o; namespace = o.object_meta.namespace }

  pub update_status-Keeps :
      (o : OnionService)
      → Guarded L o.object_meta P
      → ((ip : String) → Keeps P (K.update_status onion_service (with_ip K config o ip)))
      → Keeps P (update_status K config o)
  unfolding update_status
  update_status-Keeps o g u =
      Keeps-bind (attempt (K.get service (service_place o))) (on_service K config o)
        (Keeps-attempt (K.get service (service_place o)) (g.get service (service_place o)))
        (on_service-Keeps o u)

  on_target-Keeps :
      (rule : ServiceRule) (rest : Done K) (r : Result K.Error Service)
      → Keeps P rest
      → Keeps P (on_target K rule rest r)
  unfolding on_target
  on_target-Keeps rule rest (ok s) k =
      Keeps-if (port_exists s.spec.ports (asked_port rule)) _ _ (λ _. k)
        (λ _.
          Keeps-return_error (K.wrap none "port in service rule %#v not found in target service"))
  on_target-Keeps rule rest (err e) k = Keeps-return_error (wrapped K "service not found" e)
  on_target-Keeps rule rest panic k = Keeps-crash

  check_rules-Keeps :
      ((m : NamespacedName) → Keeps P (K.get service m))
      → (namespace : String) (rules : List ServiceRule) (rest : Done K) → Keeps P rest
      → Keeps P (check_rules K namespace rules rest)
  unfolding check_rules
  check_rules-Keeps get namespace [] rest k = k
  check_rules-Keeps get namespace (rule ∷ rules) rest k =
      Keeps-bind
        (attempt
          (K.get service (record { name = rule.backend_service.name; namespace = namespace })))
        _
        (Keeps-attempt _ (get (record { name = rule.backend_service.name; namespace = namespace })))
        (λ r.
          on_target-Keeps rule (check_rules K namespace rules rest) r
            (check_rules-Keeps get namespace rules rest k))

  -- Where the status of a resource with the same metadata may be written, the whole run keeps `P`.
  on_onion_service-Keeps :
      (o : OnionService)
      → Guarded L o.object_meta P
      → ((u : OnionService) → SameMeta o.object_meta u → Keeps P (K.update_status onion_service u))
      → Keeps P (on_onion_service K config (ok o))
  unfolding on_onion_service
  on_onion_service-Keeps o g u =
      check_rules-Keeps (g.get service) o.object_meta.namespace o.spec.rules _ (
        Keeps-bind_at (reconcile_children K config o) (update_status K config)
          (reconcile_children-Keeps o g)
          (λ s v h r.
            let e : SameMeta o.object_meta v = (reconcile_children-Yields K config o).at s v r in
            (update_status-Keeps v (subst (λ z. Guarded L z P) (sym e) g)
                (λ ip. u (with_ip K config v ip) e)).at
              (reconcile_children K config o s).1 ((reconcile_children-Keeps o g).at s h)))

module _ {K : Kube} (L : ServerLaws K) (config : ProjectConfig) (request : NamespacedName)
    {j : Kind} (n : NamespacedName) (x : Object j) (apart : Apart K onion_service request j n) where
  status-Keeps :
      (o : OnionService)
      → key_of onion_service o ≡ request
      → (u : OnionService) → SameMeta o.object_meta u
      → Keeps (Holds L j n x) (K.update_status onion_service u)
  status-Keeps o e u m = record {
    at = λ s h.
        L.update_status-apart onion_service u s j n (λ (p, q). apart (
          p,
          sym e
              ∙ ap (λ (z : ObjectMeta). record { name = z.name; namespace = z.namespace }) (sym m)
              ∙ q,
        ))
        ∙ h;
  }

  on_onion_service-Holds :
      (s : K.State) (r : Result K.Error OnionService)
      → ((o : OnionService)
          → r ≡ ok o
          → (key_of onion_service o ≡ request)
            × (K.is_controlled_by (meta j x) o.object_meta ≡ false))
      → Holds L j n x s
      → Holds L j n x (on_onion_service K config r s).1
  unfolding on_onion_service crash
  on_onion_service-Holds s (ok o) k h =
      let (e, f) = k o refl in
      (on_onion_service-Keeps L (Holds L j n x) config o (Holds-guarded L o.object_meta n x f)
          (status-Keeps o e)).at
        s h
  on_onion_service-Holds s (err e) k h =
      returned-Holds L n x (K.wrap (K.ignore_not_found (some e)) "unable to fetch OnionService") s h
  on_onion_service-Holds s panic k h = h

-- An object that stands at a place of its own, neither the OnionService itself nor controlled by
-- it, is the same after a run of the OnionService reconciler, however the run ends.
pub reconcile-others :
    {K : Kube} (L : ServerLaws K) (config : ProjectConfig) (request : NamespacedName) (s : K.State)
    {j : Kind} (n : NamespacedName) (x : Object j)
    → L.contents s j n ≡ some x
    → ((o : OnionService)
        → L.contents s onion_service request ≡ some o
        → K.is_controlled_by (meta j x) o.object_meta ≡ false)
    → Apart K onion_service request j n
    → L.contents (reconcile K config request s).1 j n ≡ some x
unfolding reconcile attempt
reconcile-others {K} L config request s {j} n x h foreign apart =
    bind_keeps (Holds L j n x) (attempt (K.get onion_service request)) (on_onion_service K config) s
      (get-Holds L n x onion_service request s h)
      (λ r e.
        on_onion_service-Holds L config request n x apart (K.get onion_service request s).1 r
          (λ o q.
            let there : L.contents s onion_service request ≡ some o =
              found L onion_service request s r o e q in
            (L.stored-key s onion_service request o there, foreign o there))
          (get-Holds L n x onion_service request s h))
