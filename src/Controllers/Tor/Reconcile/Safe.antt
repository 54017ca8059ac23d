-- ===== src/Controllers/Tor/Reconcile/Safe.antt =====
-- The Tor reconciler as a whole: what it leaves alone.
use tor_controller.Controllers.Ensure.Foreign.{get-Holds, returned-Holds, found}
use tor_controller.Base.{ap, ◌∙◌, false}
use tor_controller.Base.{◌≡◌, refl, sym, subst, some}
use tor_controller.Base.Exec.{Result, ok, err, panic, pure, attempt, crash, ◌>>=◌, ◌>>◌}
use tor_controller.Kube.Types.{NamespacedName, ObjectMeta, Service}
use tor_controller.Kube.Client.{Kube, Kind, Object, tor, service, meta, key_of, ServerLaws, Apart}
use tor_controller.Apis.Types.{Tor, ProjectConfig}
use tor_controller.Apis.TorUtil.{instance_name, set_tor_defaults}
use tor_controller.Controllers.Ensure.{checked, wrapped}
use tor_controller.Controllers.Ensure.Keeps.{
  Keeps, Keeps-bind, Keeps-bind_at, Keeps-pure, Keeps-crash, Keeps-attempt, Keeps-return_error,
  bind_keeps,
}
use tor_controller.Controllers.Ensure.Yields.{Yields, Yields-pure, Yields-bind, Yields-then}
use tor_controller.Controllers.Ensure.Guarded.{Guarded, checked-Keeps}
use tor_controller.Controllers.Ensure.Foreign.{Holds, Holds-guarded}
use tor_controller.Controllers.Tor.Rbac.{
  reconcile_service_account, reconcile_role, reconcile_role_binding,
}
use tor_controller.Controllers.Tor.Services.{
  reconcile_service, reconcile_metrics_service, reconcile_service_monitor,
}
use tor_controller.Controllers.Tor.Torfile.{reconcile_config_map}
use tor_controller.Controllers.Tor.Secret.{reconcile_control_secret}
use tor_controller.Controllers.Tor.Deployment.{reconcile_deployment}
use tor_controller.Controllers.Tor.Reconcile.{
  reconcile_children, on_service, update_status, on_tor, reconcile,
}
use tor_controller.Controllers.Tor.Reconcile.Guarded.{
  reconcile_service_account-Keeps, reconcile_role-Keeps, reconcile_role_binding-Keeps,
  reconcile_service-Keeps, reconcile_control_secret-Keeps, reconcile_config_map-Keeps,
  reconcile_deployment-Keeps, reconcile_metrics_service-Keeps, reconcile_service_monitor-Keeps,
}
use tor_controller.Controllers.Tor.Reconcile.Owner.{
  SameMeta, reconcile_control_secret-Yields, reconcile_deployment-Yields, set_tor_defaults-SameMeta,
}

pub reconcile_children-Yields :
    (K : Kube) (config : ProjectConfig) (t : Tor)
    → Yields (SameMeta t.object_meta) (reconcile_children K config t)
unfolding reconcile_children
reconcile_children-Yields K config t = Yields-bind (reconcile_service_account K t) _ (λ _.
    Yields-bind (reconcile_role K t) _ (λ _. Yields-bind (reconcile_role_binding K t) _ (λ _.
      Yields-bind (reconcile_service K t) _ (λ _.
        Yields-then (reconcile_control_secret K t) _
          (reconcile_control_secret-Yields K t.object_meta t refl)
          (λ u e. Yields-bind (reconcile_config_map K u) _ (λ _.
            Yields-then (reconcile_deployment K config u) _
              (reconcile_deployment-Yields K config t.object_meta u e)
              (λ v e'.
                Yields-bind (reconcile_metrics_service K v) _ (λ _.
                  Yields-bind (reconcile_service_monitor K v) _ (λ _. Yields-pure v e')))))))))

module _ {K : Kube} (L : ServerLaws K) (P : K.State → Type 0) (config : ProjectConfig) where
  owned : (m : ObjectMeta) → Guarded L m P → (t : Tor) → SameMeta m t → Guarded L t.object_meta P
  owned m g t e = subst (λ z. Guarded L z P) (sym e) g

  last_children-Keeps :
      (t : Tor)
      → Guarded L t.object_meta P
      → Keeps P (reconcile_metrics_service K t >> (reconcile_service_monitor K t >> pure t))
  last_children-Keeps t g =
      Keeps-bind (reconcile_metrics_service K t) _ (reconcile_metrics_service-Keeps L P t g) (λ _.
        Keeps-bind (reconcile_service_monitor K t) _ (reconcile_service_monitor-Keeps L P t g)
          (λ _. Keeps-pure t))

  from_config_map-Keeps :
      (m : ObjectMeta)
      → Guarded L m P
      → (t : Tor) → SameMeta m t
      → Keeps P (
          reconcile_config_map K t
          >> (reconcile_deployment K config t >>= λ u.
              reconcile_metrics_service K u >> (reconcile_service_monitor K u >> pure u)))
  from_config_map-Keeps m g t e =
      Keeps-bind (reconcile_config_map K t) _ (reconcile_config_map-Keeps L P t (owned m g t e))
        (λ _.
          Keeps-bind_at (reconcile_deployment K config t) _
            (reconcile_deployment-Keeps L P t (owned m g t e) config)
            (λ s u h r.
              (last_children-Keeps u
                  (owned m g u ((reconcile_deployment-Yields K config m t e).at s u r))).at
                _ ((reconcile_deployment-Keeps L P t (owned m g t e) config).at s h)))

  pub reconcile_children-Keeps :
      (t : Tor) → Guarded L t.object_meta P → Keeps P (reconcile_children K config t)
  unfolding reconcile_children
  reconcile_children-Keeps t g =
      Keeps-bind (reconcile_service_account K t) _ (reconcile_service_account-Keeps L P t g) (λ _.
        Keeps-bind (reconcile_role K t) _ (reconcile_role-Keeps L P t g) (λ _.
          Keeps-bind (reconcile_role_binding K t) _ (reconcile_role_binding-Keeps L P t g) (λ _.
            Keeps-bind (reconcile_service K t) _ (reconcile_service-Keeps L P t g) (λ _.
              Keeps-bind_at (reconcile_control_secret K t) _
                (reconcile_control_secret-Keeps L P t g)
                (λ s u h r.
                  (from_config_map-Keeps t.object_meta g u
                      ((reconcile_control_secret-Yields K t.object_meta t refl).at s u r)).at
                    _ ((reconcile_control_secret-Keeps L P t g).at s h))))))

  on_service-Keeps :
      (t : Tor)
      → Keeps P (K.update_status tor (record t { status_config = "updateme" }))
      → (r : Result K.Error Service) → Keeps P (on_service K config t r)
  unfolding on_service
  on_service-Keeps t u (ok _) =
      Keeps-bind (attempt (K.update_status tor (record t { status_config = "updateme" })))
        (checked K (wrapped K "unable to update Tor status"))
        (Keeps-attempt (K.update_status tor (record t { status_config = "updateme" })) u)
        (checked-Keeps K P (wrapped K "unable to update Tor status"))
  on_service-Keeps t u (err e) = Keeps-return_error (K.wrap (some e) "unable to get service")
  on_service-Keeps t u panic = Keeps-crash

  pub update_status-Keeps :
      (m : ObjectMeta)
      → Guarded L m P
      → ((u : Tor) → SameMeta m u → Keeps P (K.update_status tor u))
      → (t : Tor) → SameMeta m t
      → Keeps P (update_status K config t)
  unfolding update_status
  update_status-Keeps m g u t e =
      Keeps-bind
        (attempt
          (K.get service (record { name = instance_name t; namespace = t.object_meta.namespace })))
        (on_service K config t)
        (Keeps-attempt
          (K.get service (record { name = instance_name t; namespace = t.object_meta.namespace }))
          (g.get service (record { name = instance_name t; namespace = t.object_meta.namespace })))
        (on_service-Keeps t (u (record t { status_config = "updateme" }) e))

  -- Where the status of a Tor with the same metadata may be written, the whole run keeps `P`.
  pub on_tor-Keeps :
      (t : Tor)
      → Guarded L t.object_meta P
      → ((u : Tor) → SameMeta t.object_meta u → Keeps P (K.update_status tor u))
      → Keeps P (on_tor K config (ok t))
  unfolding on_tor update_status
  on_tor-Keeps t g u =
      Keeps-bind_at (reconcile_children K config (set_tor_defaults t)) (update_status K config)
        (reconcile_children-Keeps (set_tor_defaults t)
          (owned t.object_meta g (set_tor_defaults t) (set_tor_defaults-SameMeta t)))
        (λ s v h r.
          (update_status-Keeps t.object_meta g u v (
              (reconcile_children-Yields K config (set_tor_defaults t)).at s v r
              ∙ set_tor_defaults-SameMeta t)).at
            (reconcile_children K config (set_tor_defaults t) s).1
            ((reconcile_children-Keeps (set_tor_defaults t)
                (owned t.object_meta g (set_tor_defaults t) (set_tor_defaults-SameMeta t))).at
              s h))

module _ {K : Kube} (L : ServerLaws K) (config : ProjectConfig) (request : NamespacedName)
    {j : Kind} (n : NamespacedName) (x : Object j) (apart : Apart K tor request j n) where
  status-Keeps :
      (t : Tor)
      → key_of tor t ≡ request
      → (u : Tor) → SameMeta t.object_meta u
      → Keeps (Holds L j n x) (K.update_status tor u)
  status-Keeps t e u m = record {
    at = λ s h.
        L.update_status-apart tor u s j n (λ (p, q). apart (
          p,
          sym e
              ∙ ap (λ (z : ObjectMeta). record { name = z.name; namespace = z.namespace }) (sym m)
              ∙ q,
        ))
        ∙ h;
  }

  on_tor-Holds :
      (s : K.State) (r : Result K.Error Tor)
      → ((t : Tor)
          → r ≡ ok t
          → (key_of tor t ≡ request) × (K.is_controlled_by (meta j x) t.object_meta ≡ false))
      → Holds L j n x s
      → Holds L j n x (on_tor K config r s).1
  unfolding on_tor crash
  on_tor-Holds s (ok t) k h =
      let (e, f) = k t refl in
      (on_tor-Keeps L (Holds L j n x) config t (Holds-guarded L t.object_meta n x f)
          (status-Keeps t e)).at
        s h
  on_tor-Holds s (err e) k h =
      returned-Holds L n x (K.wrap (K.ignore_not_found (some e)) "unable to fetch Tor") s h
  on_tor-Holds s panic k h = h

-- An object that stands at a place of its own, neither the Tor itself nor controlled by it, is the
-- same after a run of the Tor reconciler, however the run ends.
pub reconcile-foreign :
    {K : Kube} (L : ServerLaws K) (config : ProjectConfig) (request : NamespacedName) (s : K.State)
    {j : Kind} (n : NamespacedName) (x : Object j)
    → L.contents s j n ≡ some x
    → ((t : Tor)
        → L.contents s tor request ≡ some t
        → K.is_controlled_by (meta j x) t.object_meta ≡ false)
    → Apart K tor request j n
    → L.contents (reconcile K config request s).1 j n ≡ some x
unfolding reconcile attempt
reconcile-foreign {K} L config request s {j} n x h foreign apart =
    bind_keeps (Holds L j n x) (attempt (K.get tor request)) (on_tor K config) s
      (get-Holds L n x tor request s h)
      (λ r e.
        on_tor-Holds L config request n x apart (K.get tor request s).1 r
          (λ t q.
            let there : L.contents s tor request ≡ some t = found L tor request s r t e q in
            (L.stored-key s tor request t there, foreign t there))
          (get-Holds L n x tor request s h))
