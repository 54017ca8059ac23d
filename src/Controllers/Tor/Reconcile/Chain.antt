-- ===== src/Controllers/Tor/Reconcile/Chain.antt =====
-- The parts of a run of the Tor reconciler, each with what comes after it.
use tor_controller.Base.Exec.{Exec, pure, ◌>>=◌, ◌>>◌}
use tor_controller.Kube.Types.{ObjectMeta}
use tor_controller.Kube.Client.{Kube, ServerLaws}
use tor_controller.Apis.Types.{Tor, ProjectConfig}
use tor_controller.Controllers.Ensure.Keeps.{Keeps, Keeps-bind, Keeps-pure}
use tor_controller.Controllers.Ensure.Guarded.{Guarded}
use tor_controller.Controllers.Tor.Rbac.{reconcile_role, reconcile_role_binding}
use tor_controller.Controllers.Tor.Services.{
  reconcile_service, reconcile_metrics_service, reconcile_service_monitor,
}
use tor_controller.Controllers.Tor.Torfile.{reconcile_config_map}
use tor_controller.Controllers.Tor.Secret.{reconcile_control_secret}
use tor_controller.Controllers.Tor.Deployment.{reconcile_deployment}
use tor_controller.Controllers.Tor.Reconcile.Guarded.{
  reconcile_role-Keeps, reconcile_role_binding-Keeps, reconcile_service-Keeps,
  reconcile_control_secret-Keeps, reconcile_config_map-Keeps, reconcile_deployment-Keeps,
  reconcile_metrics_service-Keeps, reconcile_service_monitor-Keeps,
}

-- The parts of the run, each with what comes after it.
module _ (K : Kube) (config : ProjectConfig) where
  abbrev pub from_metrics : Tor → Exec K.State K.Error Tor
  from_metrics t = reconcile_metrics_service K t >> (reconcile_service_monitor K t >> pure t)

  abbrev pub from_deployment : Tor → Exec K.State K.Error Tor
  from_deployment t = reconcile_deployment K config t >>= from_metrics

  abbrev pub from_config_map : Tor → Exec K.State K.Error Tor
  from_config_map t = reconcile_config_map K t >> from_deployment t

  abbrev pub from_secret : Tor → Exec K.State K.Error Tor
  from_secret t = reconcile_control_secret K t >>= from_config_map

  abbrev pub from_service : Tor → Exec K.State K.Error Tor
  from_service t = reconcile_service K t >> from_secret t

  abbrev pub from_role_binding : Tor → Exec K.State K.Error Tor
  from_role_binding t = reconcile_role_binding K t >> from_service t

  abbrev pub from_role : Tor → Exec K.State K.Error Tor
  from_role t = reconcile_role K t >> from_role_binding t

module _ {K : Kube} (L : ServerLaws K) (config : ProjectConfig) (P : K.State → Type 0)
    (g : (m : ObjectMeta) → Guarded L m P) where
  pub from_metrics-Keeps : (t : Tor) → Keeps P (from_metrics K config t)
  from_metrics-Keeps t =
      Keeps-bind (reconcile_metrics_service K t) _
        (reconcile_metrics_service-Keeps L P t (g t.object_meta))
        (λ _.
          Keeps-bind (reconcile_service_monitor K t) _
            (reconcile_service_monitor-Keeps L P t (g t.object_meta)) (λ _. Keeps-pure t))

  pub from_deployment-Keeps : (t : Tor) → Keeps P (from_deployment K config t)
  from_deployment-Keeps t =
      Keeps-bind (reconcile_deployment K config t) _
        (reconcile_deployment-Keeps L P t (g t.object_meta) config) from_metrics-Keeps

  pub from_config_map-Keeps : (t : Tor) → Keeps P (from_config_map K config t)
  from_config_map-Keeps t =
      Keeps-bind (reconcile_config_map K t) _ (reconcile_config_map-Keeps L P t (g t.object_meta))
        (λ _. from_deployment-Keeps t)

  pub from_secret-Keeps : (t : Tor) → Keeps P (from_secret K config t)
  from_secret-Keeps t =
      Keeps-bind (reconcile_control_secret K t) _
        (reconcile_control_secret-Keeps L P t (g t.object_meta)) from_config_map-Keeps

  pub from_service-Keeps : (t : Tor) → Keeps P (from_service K config t)
  from_service-Keeps t =
      Keeps-bind (reconcile_service K t) _ (reconcile_service-Keeps L P t (g t.object_meta))
        (λ _. from_secret-Keeps t)

  pub from_role_binding-Keeps : (t : Tor) → Keeps P (from_role_binding K config t)
  from_role_binding-Keeps t =
      Keeps-bind (reconcile_role_binding K t) _
        (reconcile_role_binding-Keeps L P t (g t.object_meta)) (λ _. from_service-Keeps t)

  pub from_role-Keeps : (t : Tor) → Keeps P (from_role K config t)
  from_role-Keeps t =
      Keeps-bind (reconcile_role K t) _ (reconcile_role-Keeps L P t (g t.object_meta))
        (λ _. from_role_binding-Keeps t)
