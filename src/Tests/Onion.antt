-- ===== src/Tests/Onion.antt =====
-- The OnionService reconciler at concrete inputs.
use tor_controller.Controllers.Ensure.{Done}
use tor_controller.Controllers.OnionService.Deployment.Selects.{onion_deployment-Selects}
use tor_controller.Controllers.OnionService.Deployment.{onion_deployment}
use tor_controller.Controllers.OnionService.Reconcile.Rules.{reconcile-missing_port, target}
use tor_controller.Controllers.OnionService.Reconcile.Missing.{reconcile-unfetched}
use tor_controller.Controllers.OnionService.Reconcile.Safe.{reconcile-others}
use tor_controller.Controllers.OnionService.Reconcile as OnionService
use tor_controller.Base.Exec.{err}
use tor_controller.Kube.Memory.{MemoryError, MemoryError}
use tor_controller.Kube.Full.{example_rule}
use tor_controller.Kube.Client.{onion_service}
use tor_controller.Controllers.Objects.Labels.{Selects}
use tor_controller.Controllers.Equal.{port_exists}
use tor_controller.Kube.Full.{everything, full, full-ErrorLaws}
use tor_controller.Base.{true, false, some, [], ◌≡◌, refl}
use tor_controller.Base.Exec.{ok}
use tor_controller.Kube.Client.{service}
use tor_controller.Kube.Memory.{stored, missing}
use tor_controller.Kube.Memory.Client.{memory, memory-ErrorLaws, memory-ServerLaws}
use tor_controller.Tests.{
  other_place, other_service, cluster, example_config, request, other_service-stored, empty_cluster,
}

reconcile-others_example :
    stored (OnionService.reconcile memory example_config request cluster).1 service other_place
    ≡ some other_service
unfolding memory-ServerLaws
reconcile-others_example =
    reconcile-others memory-ServerLaws example_config request cluster {j = service} other_place
      other_service other_service-stored (λ t h. refl) (λ (p, q). cc)

reconcile-unfetched_example :
    ((OnionService.reconcile memory example_config request empty_cluster).1
      ≡ (memory.get onion_service request empty_cluster).1)
    × (memory.is_not_found missing ≡ true
        → (OnionService.reconcile memory example_config request empty_cluster).0 ≡ ok tt)
    × (memory.is_not_found missing ≡ false
        → (x : MemoryError) × ((OnionService.reconcile memory example_config request
              empty_cluster).0
            ≡ err x))
unfolding stored
reconcile-unfetched_example =
    reconcile-unfetched memory-ErrorLaws example_config request empty_cluster missing refl

onion_deployment-Selects_example :
    Selects (onion_deployment memory example_config (everything onion_service request)).0
onion_deployment-Selects_example =
    onion_deployment-Selects memory example_config (everything onion_service request)

-- What follows the check here makes a service.
abbrev making : Done memory
making s = (ok tt, (memory.create service other_service s).1)

reconcile-missing_port_example :
    OnionService.reconcile full example_config request tt
    ≡ (ok tt, (full.get service (target "apps" example_rule) tt).1)
unfolding port_exists
reconcile-missing_port_example =
    reconcile-missing_port full-ErrorLaws example_config request tt
      (everything onion_service request) example_rule []
      (everything service (target "apps" example_rule)) refl refl refl refl
