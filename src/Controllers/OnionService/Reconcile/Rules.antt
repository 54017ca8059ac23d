-- ===== src/Controllers/OnionService/Reconcile/Rules.antt =====
-- The check of the rules of an OnionService.
use mathlib.Core.List.{Memᴰ}
use tor_controller.Controllers.OnionService.Reconcile.{reconcile, on_onion_service}
use tor_controller.Apis.Types.{OnionService, ProjectConfig}
use tor_controller.Kube.Client.{ErrorLaws, ServerLaws, onion_service}
use tor_controller.Base.{◌≡◌, refl, String, Bool, true, false, some, List, ◌∷◌}
use tor_controller.Base.Exec.{Result, ok, err, panic, attempt, return_error, ◌>>=◌}
use tor_controller.Kube.Types.{NamespacedName, Service}
use tor_controller.Kube.Client.{Kube, service}
use tor_controller.Apis.Types.{ServiceRule}
use tor_controller.Controllers.Ensure.{Done}
use tor_controller.Controllers.Equal.{port_exists}
use tor_controller.Controllers.OnionService.Reconcile.{asked_port, on_target, check_rules}

-- Whether what was read for a rule is a service with the port of the rule.
abbrev pub serves : {E : Type 0} → ServiceRule → Result E Service → Bool
serves rule (ok s) = port_exists s.spec.ports (asked_port rule)
serves rule (err e) = false
serves rule panic = false

abbrev pub target : String → ServiceRule → NamespacedName
target namespace rule = record { name = rule.backend_service.name; namespace = namespace }

module _ {K : Kube} (L : ServerLaws K) (namespace : String) where
  -- That the cluster has the target of a rule, with the port that the rule asks for.
  abbrev pub Provided : K.State → ServiceRule → Type 0
  Provided s rule =
      (v : Service) × (L.contents s service (target namespace rule) ≡ some v)
      × (port_exists v.spec.ports (asked_port rule) ≡ true)

  -- The check runs what follows it.
  abbrev pub Passed : List ServiceRule → Done K → K.State → Type 0
  Passed rules rest s =
      (t : K.State) × (L.contents t ≡ L.contents s)
      × (check_rules K namespace rules rest s ≡ rest t)
      × ((rule : ServiceRule) → Memᴰ rule rules → Provided s rule)

  -- The check stops at a rule for which the read finds no service with the port.
  abbrev pub Stopped : List ServiceRule → Done K → K.State → Type 0
  Stopped rules rest s =
      (L.contents (check_rules K namespace rules rest s).1 ≡ L.contents s)
      × (rule : ServiceRule) × Memᴰ rule rules
      × (t : K.State) × (L.contents t ≡ L.contents s)
      × (serves rule (K.get service (target namespace rule) t).0 ≡ false)

-- If the target service of the first rule lacks the port of the rule, the run ends without an
-- error, and its state is the one that reading the OnionService and the service left.
pub reconcile-missing_port :
    {K : Kube} (E : ErrorLaws K) (config : ProjectConfig) (request : NamespacedName) (s : K.State)
    (o : OnionService) (rule : ServiceRule) (rules : List ServiceRule) (v : Service)
    → (K.get onion_service request s).0 ≡ ok o
    → o.spec.rules ≡ rule ∷ rules
    → (let s' = (K.get onion_service request s).1 in
        (K.get service (target o.object_meta.namespace rule) s').0 ≡ ok v)
    → port_exists v.spec.ports (asked_port rule) ≡ false
    → reconcile K config request s ≡ (
      ok tt,
      (K.get service (target o.object_meta.namespace rule) (K.get onion_service request s).1).1,
    )
unfolding reconcile on_onion_service check_rules on_target attempt ◌>>=◌ return_error
reconcile-missing_port E config request s o rule rules v read first target_read missing =
    rw
      (
        read,
        first,
        target_read,
        missing,
        E.wrap-nil "port in service rule %#v not found in target service",
      )
      refl
