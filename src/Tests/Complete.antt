-- ===== src/Tests/Complete.antt =====
-- An OnionService whose rule is served by a service of the cluster.
use mathlib.Core.List.{Memᴰ}
use mathlib.Core.Option.{some-injective}
use tor_controller.Base.{◌≡◌, ◌≢◌, refl, sym, subst, none, some, [], ◌∷◌, true}
use tor_controller.Base.Exec.{attempt, ◌>>=◌}
use tor_controller.Kube.Types.{NamespacedName, Service}
use tor_controller.Kube.Client.{onion_service, service, deployment}
use tor_controller.Kube.Full.{everything, served_rule, full, full-ErrorLaws, full-ServerLaws}
use tor_controller.Apis.Types.{OnionService, ServiceRule}
use tor_controller.Apis.OnionServiceUtil.{
  authorized_clients_secret_name, secret_name, service_account_name, role_name, service_name,
  deployment_name, service_metrics_name,
}
use tor_controller.Apis.Format.{suffixed}
use tor_controller.Controllers.Equal.{port_exists}
use tor_controller.Controllers.OnionService.Reconcile.{reconcile, asked_port}
use tor_controller.Controllers.OnionService.Reconcile.Rules.{target}
use tor_controller.Controllers.OnionService.Reconcile.Complete.{reconcile-makes, its_deployment}
use tor_controller.Tests.{example_config}

abbrev shop_request : NamespacedName
shop_request = record { name = "shop"; namespace = "apps" }

abbrev shop : OnionService
shop = everything onion_service shop_request

served :
    port_exists (everything service (target "apps" served_rule)).spec.ports (asked_port served_rule)
    ≡ true
unfolding port_exists
served = refl

only_rule : (rule : ServiceRule) → Memᴰ rule (served_rule ∷ []) → served_rule ≡ rule
only_rule rule (Memᴰ.head e) = sym e
only_rule rule (Memᴰ.tail m) = elim m [ ]

serves :
    (rule : ServiceRule)
    → Memᴰ rule shop.spec.rules
    → (v : Service) → full-ServerLaws.contents tt service (target "apps" rule) ≡ some v
    → port_exists v.spec.ports (asked_port rule) ≡ true
unfolding full-ServerLaws
serves rule m v e =
    subst (λ z. port_exists z.spec.ports (asked_port rule) ≡ true) (some-injective _ v e)
      (subst
        (λ z. port_exists (everything service (target "apps" z)).spec.ports (asked_port z) ≡ true)
        (only_rule rule m) served)

reconcile-makes_example :
    full-ServerLaws.contents
      (reconcile full example_config shop_request tt).1
      deployment
      (record { name = deployment_name shop; namespace = "apps" })
    ≢ none
unfolding reconcile ◌>>=◌ attempt full-ServerLaws authorized_clients_secret_name suffixed
    secret_name service_account_name role_name service_name deployment_name service_metrics_name
reconcile-makes_example =
    reconcile-makes full-ServerLaws full-ErrorLaws example_config shop_request tt shop refl serves
      refl deployment (record { name = deployment_name shop; namespace = "apps" }) its_deployment
