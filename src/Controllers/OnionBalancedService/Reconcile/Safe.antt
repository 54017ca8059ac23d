-- ===== src/Controllers/OnionBalancedService/Reconcile/Safe.antt =====
-- The OnionBalancedService reconciler as a whole: what it leaves alone.
use tor_controller.Base.{◌≡◌, refl, sym, ap, subst, ◌∙◌, String, false, some, Option, not}
use tor_controller.Base.Exec.{
  Result, ok, err, panic, Exec, pure, attempt, crash, return_error, ◌>>=◌, ◌>>◌,
}
use tor_controller.Kube.Types.{NamespacedName, ObjectMeta, Service}
use tor_controller.Kube.Client.{
  Kube, Kind, Object, onion_balanced_service, service, meta, key_of, ServerLaws, Apart,
}
use tor_controller.Apis.Types.{OnionBalancedService, ProjectConfig}
use tor_controller.Apis.OnionBalancedServiceUtil.{service_name, is_synced}
use tor_controller.Controllers.Ensure.{wrapped}
use tor_controller.Controllers.Ensure.Keeps.{
  Keeps, Keeps-bind, Keeps-bind_at, Keeps-pure, Keeps-crash, Keeps-attempt, Keeps-return_error,
  Keeps-if, bind_keeps,
}
use tor_controller.Controllers.Ensure.Guarded.{Guarded}
use tor_controller.Controllers.Ensure.Foreign.{Holds, Holds-guarded, get-Holds, found}
use tor_controller.Controllers.OnionService.Reconcile.{default_cluster_ip}
use tor_controller.Controllers.OnionBalancedService.Rbac.{
  reconcile_service_account, reconcile_role, reconcile_role_binding,
}
use tor_controller.Controllers.OnionBalancedService.Services.{
  reconcile_service, reconcile_metrics_service, reconcile_service_monitor,
}
use tor_controller.Controllers.OnionBalancedService.Secret.{reconcile_secret}
use tor_controller.Controllers.OnionBalancedService.ConfigMap.{reconcile_config_map}
use tor_controller.Controllers.OnionBalancedService.Deployment.{reconcile_deployment}
use tor_controller.Controllers.OnionBalancedService.Backends.{reconcile_backends}
use tor_controller.Controllers.OnionBalancedService.Reconcile.{
  listed_items, finished, reconcile_children, with_status, on_updated, write_status,
  with_cluster_ip, on_service, update_status, on_balanced, reconcile,
}
use tor_controller.Controllers.OnionBalancedService.Reconcile.Guarded.{
  reconcile_service_account-Keeps, reconcile_role-Keeps, reconcile_role_binding-Keeps,
  reconcile_service-Keeps, reconcile_secret-Keeps, reconcile_config_map-Keeps,
  reconcile_deployment-Keeps, reconcile_backends-Keeps, reconcile_metrics_service-Keeps,
  reconcile_service_monitor-Keeps,
}
use tor_controller.Controllers.OnionBalancedService.Reconcile.Owner.{
  SameMeta, reconcile_deployment-Yields, reconcile_secret-Yields, reconcile_children-Yields,
}

module _ {K : Kube} (L : ServerLaws K) (P : K.State → Type 0) (config : ProjectConfig) where
  owned :
      (o u : OnionBalancedService)
      → Guarded L o.object_meta P
      → SameMeta o.object_meta u
      → Guarded L u.object_meta P
  owned o u g e = subst (λ z. Guarded L z P) (sym e) g

  last_children-Keeps :
      (o : OnionBalancedService)
      → Guarded L o.object_meta P
      → Keeps P (
          reconcile_backends K o
          >> (reconcile_metrics_service K o >> (reconcile_service_monitor K o >> pure o)))
  last_children-Keeps o g =
      Keeps-bind (reconcile_backends K o) _ (reconcile_backends-Keeps L P o g) (λ _.
        Keeps-bind (reconcile_metrics_service K o) _ (reconcile_metrics_service-Keeps L P o g) (λ _.
          Keeps-bind (reconcile_service_monitor K o) _ (reconcile_service_monitor-Keeps L P o g)
            (λ _. Keeps-pure o)))

  abbrev after_secret : OnionBalancedService → Exec K.State K.Error OnionBalancedService
  after_secret o = do
    reconcile_service_account K o
    reconcile_role K o
    reconcile_role_binding K o
    reconcile_service K o
    reconcile_config_map K o
    u ← reconcile_deployment K config o
    reconcile_backends K u
    reconcile_metrics_service K u
    reconcile_service_monitor K u
    pure u

  after_secret-Keeps :
      (o : OnionBalancedService) → Guarded L o.object_meta P → Keeps P (after_secret o)
  after_secret-Keeps o g =
      Keeps-bind (reconcile_service_account K o) _ (reconcile_service_account-Keeps L P o g) (λ _.
        Keeps-bind (reconcile_role K o) _ (reconcile_role-Keeps L P o g) (λ _.
          Keeps-bind (reconcile_role_binding K o) _ (reconcile_role_binding-Keeps L P o g) (λ _.
            Keeps-bind (reconcile_service K o) _ (reconcile_service-Keeps L P o g) (λ _.
              Keeps-bind (reconcile_config_map K o) _ (reconcile_config_map-Keeps L P o g) (λ _.
                Keeps-bind_at (reconcile_deployment K config o) _
                  (reconcile_deployment-Keeps L P o g config)
                  (λ s u h r.
                    (last_children-Keeps u
                        (owned o u g ((reconcile_deployment-Yields K config o).at s u r))).at
                      _ ((reconcile_deployment-Keeps L P o g config).at s h)))))))

  reconcile_children-Keeps :
      (o : OnionBalancedService)
      → Guarded L o.object_meta P
      → Keeps P (reconcile_children K config o)
  unfolding reconcile_children
  reconcile_children-Keeps o g =
      Keeps-bind_at (reconcile_secret K o) after_secret (reconcile_secret-Keeps L P o g) (λ s b h r.
        (after_secret-Keeps b (owned o b g ((reconcile_secret-Yields K o).at s b r))).at _
          ((reconcile_secret-Keeps L P o g).at s h))

  finished-Keeps : (e : Option K.Error) → Keeps P (finished K config e)
  finished-Keeps e = Keeps-bind (return_error e) _ (Keeps-return_error e) (λ _. Keeps-pure false)

  on_updated-Keeps :
      (sent : OnionBalancedService) (r : Result K.Error OnionBalancedService)
      → Keeps P (on_updated K config sent r)
  unfolding on_updated
  on_updated-Keeps sent (ok o) = Keeps-pure (not (is_synced o))
  on_updated-Keeps sent (err e) =
      finished-Keeps (wrapped K "unable to update OnionBalancedService status" e)
  on_updated-Keeps sent panic = Keeps-crash

  module _ (asked : String) (o : OnionBalancedService) (g : Guarded L o.object_meta P)
      (write : (u : OnionBalancedService)
        → SameMeta o.object_meta u
        → Keeps P (K.update_status onion_balanced_service u)) where
    with_cluster_ip-Keeps : (ip : String) → Keeps P (with_cluster_ip K config asked o ip)
    unfolding with_cluster_ip write_status
    with_cluster_ip-Keeps ip =
        Keeps-bind (attempt (K.list_onion_services asked)) _ (Keeps-attempt _ (g.list asked))
          (λ items.
            Keeps-bind
              (attempt (
                K.update_status onion_balanced_service
                  (with_status K config o ip (listed_items items))))
              _ (Keeps-attempt _ (write (with_status K config o ip (listed_items items)) refl))
              (on_updated-Keeps (with_status K config o ip (listed_items items))))

    on_service-Keeps : (r : Result K.Error Service) → Keeps P (on_service K config asked o r)
    unfolding on_service
    on_service-Keeps (ok s) = with_cluster_ip-Keeps s.spec.cluster_ip
    on_service-Keeps (err e) =
        Keeps-if (K.is_not_found e) _ _ (λ _. with_cluster_ip-Keeps default_cluster_ip)
          (λ _. finished-Keeps (wrapped K "unable to get service" e))
    on_service-Keeps panic = Keeps-crash

    pub update_status-Keeps : Keeps P (update_status K config asked o)
    unfolding update_status
    update_status-Keeps =
        Keeps-bind
          (attempt
            (K.get service (record { name = service_name o; namespace = o.object_meta.namespace })))
          _
          (Keeps-attempt _
            (g.get service (record { name = service_name o; namespace = o.object_meta.namespace })))
          on_service-Keeps

  on_balanced-Keeps :
      (asked : String) (o : OnionBalancedService)
      → Guarded L o.object_meta P
      → ((u : OnionBalancedService)
          → SameMeta o.object_meta u
          → Keeps P (K.update_status onion_balanced_service u))
      → Keeps P (on_balanced K config asked (ok o))
  unfolding on_balanced
  on_balanced-Keeps asked o g write =
      Keeps-bind_at (reconcile_children K config o) (update_status K config asked)
        (reconcile_children-Keeps o g)
        (λ s v h r.
          let e : SameMeta o.object_meta v = (reconcile_children-Yields K config o).at s v r in
          (update_status-Keeps asked v (owned o v g e) (λ u q. write u (q ∙ e))).at
            (reconcile_children K config o s).1 ((reconcile_children-Keeps o g).at s h))

module _ {K : Kube} (L : ServerLaws K) (config : ProjectConfig) (request : NamespacedName)
    {j : Kind} (n : NamespacedName) (x : Object j)
    (apart : Apart K onion_balanced_service request j n) where
  status-Keeps :
      (o : OnionBalancedService)
      → key_of onion_balanced_service o ≡ request
      → (u : OnionBalancedService) → SameMeta o.object_meta u
      → Keeps (Holds L j n x) (K.update_status onion_balanced_service u)
  status-Keeps o e u m = record {
    at = λ s h.
        L.update_status-apart onion_balanced_service u s j n (λ (p, q). apart (
          p,
          sym e
              ∙ ap (λ (z : ObjectMeta). record { name = z.name; namespace = z.namespace }) (sym m)
              ∙ q,
        ))
        ∙ h;
  }

  on_balanced-Holds :
      (s : K.State) (r : Result K.Error OnionBalancedService)
      → ((o : OnionBalancedService)
          → r ≡ ok o
          → (key_of onion_balanced_service o ≡ request)
            × (K.is_controlled_by (meta j x) o.object_meta ≡ false))
      → Holds L j n x s
      → Holds L j n x (on_balanced K config request.namespace r s).1
  unfolding on_balanced crash
  on_balanced-Holds s (ok o) k h =
      let (e, f) = k o refl in
      (on_balanced-Keeps L (Holds L j n x) config request.namespace o
          (Holds-guarded L o.object_meta n x f) (status-Keeps o e)).at
        s h
  on_balanced-Holds s (err e) k h =
      (finished-Keeps L (Holds L j n x) config
          (K.wrap (K.ignore_not_found (some e)) "unable to fetch OnionBalancedService")).at
        s h
  on_balanced-Holds s panic k h = h

-- An object that stands at a place of its own, neither the OnionBalancedService itself nor
-- controlled by it, is the same after a run of the OnionBalancedService reconciler, however the run
-- ends.
pub reconcile-unowned :
    {K : Kube} (L : ServerLaws K) (config : ProjectConfig) (request : NamespacedName) (s : K.State)
    {j : Kind} (n : NamespacedName) (x : Object j)
    → L.contents s j n ≡ some x
    → ((o : OnionBalancedService)
        → L.contents s onion_balanced_service request ≡ some o
        → K.is_controlled_by (meta j x) o.object_meta ≡ false)
    → Apart K onion_balanced_service request j n
    → L.contents (reconcile K config request s).1 j n ≡ some x
unfolding reconcile attempt
reconcile-unowned {K} L config request s {j} n x h foreign apart =
    bind_keeps (Holds L j n x) (attempt (K.get onion_balanced_service request))
      (on_balanced K config request.namespace) s
      (get-Holds L n x onion_balanced_service request s h)
      (λ r e.
        on_balanced-Holds L config request n x apart (K.get onion_balanced_service request s).1 r
          (λ o q.
            let there : L.contents s onion_balanced_service request ≡ some o =
              found L onion_balanced_service request s r o e q in
            (L.stored-key s onion_balanced_service request o there, foreign o there))
          (get-Holds L n x onion_balanced_service request s h))
