-- ===== src/Tests/Balanced.antt =====
-- The OnionBalancedService reconciler at concrete inputs.
use tor_controller.Controllers.OnionBalancedService.Reconcile.Missing.{reconcile-absent}
use tor_controller.Controllers.OnionBalancedService.Deployment.Selects.{balance_deployment-Selects}
use tor_controller.Controllers.OnionBalancedService.Deployment.{balance_deployment}
use tor_controller.Controllers.OnionBalancedService.Backends.Errors.{
  reconcile_backends-absorbs, reconcile_backends-waits,
}
use tor_controller.Controllers.OnionBalancedService.Backends.{reconcile_backends}
use tor_controller.Controllers.OnionBalancedService.Reconcile.Safe.{reconcile-unowned}
use tor_controller.Controllers.OnionBalancedService.Reconcile as OnionBalancedService
use tor_controller.Kube.Client.{onion_balanced_service}
use tor_controller.Apis.OnionBalancedServiceUtil.Synced.{is_synced_iff, Entry, Known}
use tor_controller.Apis.OnionBalancedServiceUtil.{is_synced}
use tor_controller.Base.{length}
use tor_controller.Apis.Types.{OnionBalancedService}
use mathlib.Core.List.{Memᴰ}
use tor_controller.Controllers.Objects.Labels.{Selects}
use tor_controller.Base.{◌↔◌}
use tor_controller.Kube.Full.{everything}
use tor_controller.Base.{true, false, some, ◌≡◌, ◌≢◌, refl}
use tor_controller.Base.Exec.{ok, err}
use tor_controller.Kube.Client.{service}
use tor_controller.Base.Exec.{err}
use tor_controller.Kube.Memory.{MemoryError, stored, missing}
use tor_controller.Kube.Memory.Client.{memory, memory-ErrorLaws, memory-ServerLaws}
use tor_controller.Tests.{
  other_place, other_service, cluster, example_config, request, other_service-stored, empty_cluster,
}

reconcile-unowned_example :
    stored
      (OnionBalancedService.reconcile memory example_config request cluster).1
      service
      other_place
    ≡ some other_service
unfolding memory-ServerLaws
reconcile-unowned_example =
    reconcile-unowned memory-ServerLaws example_config request cluster {j = service} other_place
      other_service other_service-stored (λ t h. refl) (λ (p, q). cc)

abbrev balanced : OnionBalancedService
balanced = everything onion_balanced_service request

reconcile_backends-absorbs_example :
    (reconcile_backends memory balanced empty_cluster).0 ≢ err missing
reconcile_backends-absorbs_example =
    reconcile_backends-absorbs memory balanced empty_cluster missing

reconcile_backends-waits_example :
    stored (reconcile_backends memory balanced cluster).1 ≡ stored cluster
unfolding memory-ServerLaws
reconcile_backends-waits_example = reconcile_backends-waits memory-ServerLaws balanced refl cluster

is_synced_iff_example : is_synced balanced ≡ true ↔ (
    (length balanced.status.backends ≡ 1)
    × ((x : Entry) → Memᴰ x balanced.status.backends → Known x))
is_synced_iff_example = is_synced_iff balanced

balance_deployment-Selects_example : Selects (balance_deployment memory example_config balanced).0
balance_deployment-Selects_example = balance_deployment-Selects memory example_config balanced

reconcile-absent_example :
    ((OnionBalancedService.reconcile memory example_config request empty_cluster).1
      ≡ (memory.get onion_balanced_service request empty_cluster).1)
    × (memory.is_not_found missing ≡ true
        → (OnionBalancedService.reconcile memory example_config request empty_cluster).0 ≡ ok false)
    × (memory.is_not_found missing ≡ false
        → (x : MemoryError) × ((OnionBalancedService.reconcile memory example_config request
              empty_cluster).0
            ≡ err x))
unfolding stored
reconcile-absent_example =
    reconcile-absent memory-ErrorLaws example_config request empty_cluster missing refl
