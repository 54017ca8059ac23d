-- ===== src/Controllers/OnionService/Reconcile/Chain.antt =====
-- The parts of a run of the OnionService reconciler, each with what comes after it.
use tor_controller.Base.Exec.{Exec, pure, ◌>>=◌, ◌>>◌}
use tor_controller.Kube.Types.{ObjectMeta}
use tor_controller.Kube.Client.{Kube, ServerLaws}
use tor_controller.Apis.Types.{OnionService, ProjectConfig}
use tor_controller.Controllers.Ensure.Keeps.{Keeps, Keeps-bind, Keeps-pure}
use tor_controller.Controllers.Ensure.Guarded.{Guarded}
use tor_controller.Controllers.OnionService.Rbac.{
  reconcile_service_account, reconcile_role, reconcile_role_binding,
}
use tor_controller.Controllers.OnionService.Services.{
  reconcile_service, reconcile_metrics_service, reconcile_service_monitor,
}
use tor_controller.Controllers.OnionService.Secret.{reconcile_secret}
use tor_controller.Controllers.OnionService.Deployment.{reconcile_deployment}
use tor_controller.Controllers.OnionService.Reconcile.Guarded.{
  reconcile_service_account-Keeps, reconcile_role-Keeps, reconcile_role_binding-Keeps,
  reconcile_service-Keeps, reconcile_metrics_service-Keeps, reconcile_service_monitor-Keeps,
  reconcile_deployment-Keeps,
}

module _ (K : Kube) (config : ProjectConfig) where
  abbrev pub from_metrics : OnionService → Exec K.State K.Error OnionService
  from_metrics o = reconcile_metrics_service K o >> (reconcile_service_monitor K o >> pure o)

  abbrev pub from_deployment : OnionService → Exec K.State K.Error OnionService
  from_deployment o = reconcile_deployment K config o >>= from_metrics

  abbrev pub from_service : OnionService → Exec K.State K.Error OnionService
  from_service o = reconcile_service K o >> from_deployment o

  abbrev pub from_role_binding : OnionService → Exec K.State K.Error OnionService
  from_role_binding o = reconcile_role_binding K o >> from_service o

  abbrev pub from_role : OnionService → Exec K.State K.Error OnionService
  from_role o = reconcile_role K o >> from_role_binding o

  abbrev pub from_service_account : OnionService → Exec K.State K.Error OnionService
  from_service_account o = reconcile_service_account K o >> from_role o

  abbrev pub from_secret : OnionService → Exec K.State K.Error OnionService
  from_secret o = reconcile_secret K o >> from_service_account o

module _ {K : Kube} (L : ServerLaws K) (config : ProjectConfig) (P : K.State → Type 0)
    (g : (m : ObjectMeta) → Guarded L m P) where
  pub from_metrics-Keeps : (o : OnionService) → Keeps P (from_metrics K config o)
  from_metrics-Keeps o =
      Keeps-bind (reconcile_metrics_service K o) _
        (reconcile_metrics_service-Keeps L P o (g o.object_meta))
        (λ _.
          Keeps-bind (reconcile_service_monitor K o) _
            (reconcile_service_monitor-Keeps L P o (g o.object_meta)) (λ _. Keeps-pure o))

  pub from_deployment-Keeps : (o : OnionService) → Keeps P (from_deployment K config o)
  from_deployment-Keeps o =
      Keeps-bind (reconcile_deployment K config o) _
        (reconcile_deployment-Keeps L P o (g o.object_meta) config) from_metrics-Keeps

  pub from_service-Keeps : (o : OnionService) → Keeps P (from_service K config o)
  from_service-Keeps o =
      Keeps-bind (reconcile_service K o) _ (reconcile_service-Keeps L P o (g o.object_meta))
        (λ _. from_deployment-Keeps o)

  pub from_role_binding-Keeps : (o : OnionService) → Keeps P (from_role_binding K config o)
  from_role_binding-Keeps o =
      Keeps-bind (reconcile_role_binding K o) _
        (reconcile_role_binding-Keeps L P o (g o.object_meta)) (λ _. from_service-Keeps o)

  pub from_role-Keeps : (o : OnionService) → Keeps P (from_role K config o)
  from_role-Keeps o =
      Keeps-bind (reconcile_role K o) _ (reconcile_role-Keeps L P o (g o.object_meta))
        (λ _. from_role_binding-Keeps o)

  pub from_service_account-Keeps : (o : OnionService) → Keeps P (from_service_account K config o)
  from_service_account-Keeps o =
      Keeps-bind (reconcile_service_account K o) _
        (reconcile_service_account-Keeps L P o (g o.object_meta)) (λ _. from_role-Keeps o)
