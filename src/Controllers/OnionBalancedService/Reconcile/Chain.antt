-- ===== src/Controllers/OnionBalancedService/Reconcile/Chain.antt =====
-- The parts of a run of the OnionBalancedService reconciler, each with what comes after it.
use tor_controller.Base.Exec.{Exec, pure, ◌>>=◌, ◌>>◌}
use tor_controller.Kube.Types.{ObjectMeta}
use tor_controller.Kube.Client.{Kube, ServerLaws}
use tor_controller.Apis.Types.{OnionBalancedService, ProjectConfig}
use tor_controller.Controllers.Ensure.Keeps.{Keeps, Keeps-bind, Keeps-pure}
use tor_controller.Controllers.Ensure.Guarded.{Guarded}
use tor_controller.Controllers.OnionBalancedService.Rbac.{
  reconcile_service_account, reconcile_role, reconcile_role_binding,
}
use tor_controller.Controllers.OnionBalancedService.Services.{
  reconcile_service, reconcile_metrics_service, reconcile_service_monitor,
}
use tor_controller.Controllers.OnionBalancedService.ConfigMap.{reconcile_config_map}
use tor_controller.Controllers.OnionBalancedService.Deployment.{reconcile_deployment}
use tor_controller.Controllers.OnionBalancedService.Backends.{reconcile_backends}
use tor_controller.Controllers.OnionBalancedService.Reconcile.Guarded.{
  reconcile_role-Keeps, reconcile_role_binding-Keeps, reconcile_service-Keeps,
  reconcile_service_account-Keeps, reconcile_config_map-Keeps, reconcile_deployment-Keeps,
  reconcile_backends-Keeps, reconcile_metrics_service-Keeps, reconcile_service_monitor-Keeps,
}

module _ (K : Kube) (config : ProjectConfig) where
  abbrev pub from_backends : OnionBalancedService → Exec K.State K.Error OnionBalancedService
  from_backends o =
      reconcile_backends K o
      >> (reconcile_metrics_service K o >> (reconcile_service_monitor K o >> pure o))

  abbrev pub from_deployment : OnionBalancedService → Exec K.State K.Error OnionBalancedService
  from_deployment o = reconcile_deployment K config o >>= from_backends

  abbrev pub from_config_map : OnionBalancedService → Exec K.State K.Error OnionBalancedService
  from_config_map o = reconcile_config_map K o >> from_deployment o

  abbrev pub from_service : OnionBalancedService → Exec K.State K.Error OnionBalancedService
  from_service o = reconcile_service K o >> from_config_map o

  abbrev pub from_role_binding : OnionBalancedService → Exec K.State K.Error OnionBalancedService
  from_role_binding o = reconcile_role_binding K o >> from_service o

  abbrev pub from_role : OnionBalancedService → Exec K.State K.Error OnionBalancedService
  from_role o = reconcile_role K o >> from_role_binding o

  abbrev pub from_service_account : OnionBalancedService → Exec K.State K.Error OnionBalancedService
  from_service_account o = reconcile_service_account K o >> from_role o

module _ {K : Kube} (L : ServerLaws K) (config : ProjectConfig) (P : K.State → Type 0)
    (g : (m : ObjectMeta) → Guarded L m P) where
  pub from_backends-Keeps : (o : OnionBalancedService) → Keeps P (from_backends K config o)
  from_backends-Keeps o =
      Keeps-bind (reconcile_backends K o) _ (reconcile_backends-Keeps L P o (g o.object_meta)) (λ _.
        Keeps-bind (reconcile_metrics_service K o) _
          (reconcile_metrics_service-Keeps L P o (g o.object_meta))
          (λ _.
            Keeps-bind (reconcile_service_monitor K o) _
              (reconcile_service_monitor-Keeps L P o (g o.object_meta)) (λ _. Keeps-pure o)))

  pub from_deployment-Keeps : (o : OnionBalancedService) → Keeps P (from_deployment K config o)
  from_deployment-Keeps o =
      Keeps-bind (reconcile_deployment K config o) _
        (reconcile_deployment-Keeps L P o (g o.object_meta) config) from_backends-Keeps

  pub from_config_map-Keeps : (o : OnionBalancedService) → Keeps P (from_config_map K config o)
  from_config_map-Keeps o =
      Keeps-bind (reconcile_config_map K o) _ (reconcile_config_map-Keeps L P o (g o.object_meta))
        (λ _. from_deployment-Keeps o)

  pub from_service-Keeps : (o : OnionBalancedService) → Keeps P (from_service K config o)
  from_service-Keeps o =
      Keeps-bind (reconcile_service K o) _ (reconcile_service-Keeps L P o (g o.object_meta))
        (λ _. from_config_map-Keeps o)

  pub from_role_binding-Keeps : (o : OnionBalancedService) → Keeps P (from_role_binding K config o)
  from_role_binding-Keeps o =
      Keeps-bind (reconcile_role_binding K o) _
        (reconcile_role_binding-Keeps L P o (g o.object_meta)) (λ _. from_service-Keeps o)

  pub from_role-Keeps : (o : OnionBalancedService) → Keeps P (from_role K config o)
  from_role-Keeps o =
      Keeps-bind (reconcile_role K o) _ (reconcile_role-Keeps L P o (g o.object_meta))
        (λ _. from_role_binding-Keeps o)

  pub from_service_account-Keeps :
      (o : OnionBalancedService) → Keeps P (from_service_account K config o)
  from_service_account-Keeps o =
      Keeps-bind (reconcile_service_account K o) _
        (reconcile_service_account-Keeps L P o (g o.object_meta)) (λ _. from_role-Keeps o)
