-- ===== src/Tests/Balance.antt =====
-- An OnionBalancedService, its backends and what the agent makes of them.
use mathlib.Core.List.{Memᴰ}
use mathlib.Core.Option.{some-injective}
use mathlib.Core.Logic.{◌↔◌}
use tor_controller.Base.{
  ◌≡◌, ◌≢◌, refl, String, true, Option, none, some, List, [], ◌∷◌, ◌⊎◌, inl, inr, arith,
}
use tor_controller.Base.Exec.{ok, err, attempt, ◌>>=◌}
use tor_controller.Kube.Client.{onion_service, onion_balanced_service, deployment, key_of}
use tor_controller.Kube.Full.{everything, with_status_of, full, full-ErrorLaws, full-ServerLaws}
use tor_controller.Kube.Memory.{Store, MemoryError, stored}
use tor_controller.Kube.Memory.Client.{memory, memory-ServerLaws, answer}
use tor_controller.Apis.Types.{OnionService, OnionServiceStatus, OnionBalancedService}
use tor_controller.Apis.Format.{suffixed, decimal}
use tor_controller.Apis.OnionBalancedServiceUtil.{
  secret_name, service_account_name, role_name, service_name, config_map_name, deployment_name,
  service_metrics_name, is_synced,
}
use tor_controller.Controllers.OnionBalancedService.Backends.{backend, reconcile_backends}
use tor_controller.Controllers.OnionBalancedService.Backends.Provided.{reconcile_backends-provides}
use tor_controller.Controllers.OnionBalancedService.Reconcile.{reconcile, add_backends}
use tor_controller.Controllers.OnionBalancedService.Reconcile.Complete.{
  reconcile-provides, its_deployment, later,
}
use tor_controller.Agents.OnionBalance.Config.{instances}
use tor_controller.Agents.OnionBalance.Config.Backends.{latest, instances-add_backends}
use tor_controller.Agents.Tor.Controller.Paths.{unequal}
use tor_controller.Base.{length, false, sym, ap, ◌∙◌}
use tor_controller.Kube.Memory.Client.{ok-same}
use tor_controller.Apis.OnionBalancedServiceUtil.Synced.{Entry, Known}
use tor_controller.Controllers.OnionBalancedService.Reconcile.{update_status}
use tor_controller.Controllers.OnionBalancedService.Reconcile.Again.{
  backends_at, StatusOnly, update_status-again,
}
use tor_controller.Tests.{example_config, request}

reconcile-provides_example :
    full-ServerLaws.contents (reconcile full example_config request tt).1 deployment (record {
      name = deployment_name (everything onion_balanced_service request);
      namespace = "apps";
    })
    ≢ none
unfolding reconcile ◌>>=◌ attempt full-ServerLaws deployment_name secret_name suffixed
    service_account_name role_name service_name config_map_name decimal service_metrics_name
    is_synced
reconcile-provides_example =
    reconcile-provides full-ServerLaws full-ErrorLaws example_config request tt
      (everything onion_balanced_service request) false refl refl deployment
      (record {
        name = deployment_name (everything onion_balanced_service request);
        namespace = "apps";
      })
      (later its_deployment)

abbrev three : OnionBalancedService
three = record (everything onion_balanced_service request) {
  spec = record (everything onion_balanced_service request).spec { backends = 3 };
  status = record (everything onion_balanced_service request).status { hostname = "master.onion" };
}

abbrev nothing : Store
nothing k n = none

answered :
    (v : Option OnionService)
    → ((o : OnionService) × (answer v ≡ ok o))
      ⊎ ((e : MemoryError) × (answer v ≡ err e) × (memory.is_not_found e ≡ true))
answered none = inr (MemoryError.missing, refl, refl)
answered (some o) = inl (o, refl)

reconcile_backends-provides_example :
    stored
      (reconcile_backends memory three nothing).1
      onion_service
      (key_of onion_service (backend memory three 3))
    ≢ none
unfolding memory-ServerLaws
reconcile_backends-provides_example =
    reconcile_backends-provides memory-ServerLaws three (unequal "master.onion" "" refl)
      (λ n s. answered (stored s onion_service n)) (λ o s h. (o, rw h refl)) nothing 3 (omega arith)
      (omega arith)

abbrev listed : String → String → OnionService
listed name hostname =
    record (everything onion_service (record { name = name; namespace = "apps" })) {
      status = record { hostname = hostname; target_cluster_ip = "" };
    }

-- The first backend has no hostname yet.
abbrev two : List OnionService
two = listed "shop-1" "" ∷ listed "shop-2" "b.onion" ∷ []

instances-add_backends_example :
    Memᴰ (record { name = "shop-2"; address = "b.onion" }) (instances (add_backends two [])) ↔ (
      (s : OnionServiceStatus) × (latest "shop-2" two ≡ some s)
      × (s.hostname ≡ "b.onion")
      × (◌≢◌ {A = String} "b.onion" ""))
instances-add_backends_example =
    instances-add_backends two (record { name = "shop-2"; address = "b.onion" })

abbrev hub : OnionBalancedService
hub = everything onion_balanced_service request

-- This API server answers with the stored spec and the status that it was sent.
answered_status : StatusOnly full-ServerLaws
unfolding full-ServerLaws
answered_status o u v s held h =
    let p : with_status_of onion_balanced_service o ≡ u =
      ok-same (with_status_of onion_balanced_service o) u h in
    let q : everything onion_balanced_service (key_of onion_balanced_service o) ≡ v =
      some-injective (everything onion_balanced_service (key_of onion_balanced_service o)) v held in
    (
      ap (λ (z : OnionBalancedService). z.spec) (sym p)
          ∙ ap (λ (z : OnionBalancedService). z.spec) q,
      ap (λ (z : OnionBalancedService). z.status) (sym p),
    )

-- The object at hand asks for three backends, the stored one for the one backend that there is.
update_status-again_example : false ≡ false ↔ (
    (length (backends_at full "apps" tt) ≡ hub.spec.backends)
    × ((x : Entry) → Memᴰ x (backends_at full "apps" tt) → Known x))
unfolding update_status ◌>>=◌ attempt add_backends is_synced full-ServerLaws
update_status-again_example =
    update_status-again full-ErrorLaws full-ServerLaws answered_status example_config "apps" three
      hub false tt refl refl
