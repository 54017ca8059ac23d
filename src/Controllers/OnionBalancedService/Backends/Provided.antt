-- ===== src/Controllers/OnionBalancedService/Backends/Provided.antt =====
-- Reconciling the backends makes every backend that is missing.
use Prim.Native.Char.{Char}
use Prim.Native.String.{◌++◌ as ◌<>◌}
use Prim.Native.String.compare
use Prim.Native.String.{compare}
use text.Mathlib.Text.{is_eq}
use text.Mathlib.TextLemmas.{cons-append}
use mathlib.Core.Option.{some-ne-none}
use tor_controller.Base.{
  ℕ, zero, suc, ◌+◌, ◌≤◌, ◌<◌, ◌≡◌, ◌≢◌, refl, sym, ap, subst, ◌∙◌, ◌⊎◌, inl, inr, String, true,
  false, none, str_eq, eq_iff, Bool-cases, arith, ℕ_discrete,
}
use tor_controller.Base.Exec.{ok, err, pure, attempt, ◌>>=◌}
use tor_controller.Kube.Types.{NamespacedName}
use tor_controller.Kube.Client.{Kube, ServerLaws, onion_service, key_of}
use tor_controller.Apis.Types.{OnionService, OnionBalancedService}
use tor_controller.Apis.Format.{suffixed-ne-empty, decimal}
use tor_controller.Apis.OnionBalancedServiceUtil.{onion_service_backend_name}
use tor_controller.Controllers.Ensure.{Done, checked}
use tor_controller.Controllers.Ensure.Present.{Present, Present-guarded}
use tor_controller.Controllers.OnionBalancedService.Reconcile.Guarded.{backends_from-Keeps}
use tor_controller.Controllers.OnionBalancedService.Backends.{
  backend, on_backend, with_master, reconcile_backend, go_on, backends_from, reconcile_backends,
}

cons_ne-empty : (c : Char) (s t : String) → str_eq (String.◌∷◌ c s <> t) "" ≡ false
cons_ne-empty c s t =
    ap is_eq (ap (λ z. compare z "") (cons-append c s t) ∙ compare.cons-nil c (s <> t))

backend_named :
    (b : OnionBalancedService) (idx : ℕ) → str_eq (onion_service_backend_name b idx) "" ≡ false
unfolding onion_service_backend_name
backend_named b idx =
    suffixed-ne-empty b.object_meta.name ("-tor-obb-" <> decimal idx)
      (cons_ne-empty _ _ (decimal idx))

module _ {K : Kube} (L : ServerLaws K) (b : OnionBalancedService)
    (has_master : b.status.hostname ≢ "")
    (reads : (n : NamespacedName) (s : K.State)
      → ((o : OnionService) × ((K.get onion_service n s).0 ≡ ok o))
        ⊎ ((e : K.Error) × ((K.get onion_service n s).0 ≡ err e) × (K.is_not_found e ≡ true)))
    (creates : (o : OnionService) (s : K.State)
      → L.contents s onion_service (key_of onion_service o) ≡ none
      → (o' : OnionService) × ((K.create onion_service o s).0 ≡ ok o')) where
  abbrev place : ℕ → NamespacedName
  place idx = key_of onion_service (backend K b idx)

  known : str_eq b.status.hostname "" ≡ false
  known = elim (Bool-cases (str_eq b.status.hostname "")) [
    | inl e ↦ absurd (has_master ((eq_iff b.status.hostname "").0 e))
    | inr e ↦ e
  ]

  -- A step that reads the backend, and makes it where it is missing.
  abbrev one : ℕ → Done K
  one idx = attempt (K.get onion_service (place idx)) >>= with_master K b idx

  one_step :
      (idx : ℕ) (s : K.State)
      → ((one idx s).0 ≡ ok tt) × Present L onion_service (place idx) (one idx s).1
  unfolding with_master on_backend checked attempt ◌>>=◌ pure
  one_step idx s = elim (reads (place idx) s) [
    | inl (o, e) ↦ (
      rw (e, known) refl,
      rw (e, known)
          (λ q. some-ne-none o (
            sym (
              ap (λ m. m onion_service (place idx)) (L.get-keeps onion_service (place idx) s)
              ∙ L.get-found onion_service (place idx) s o e)
            ∙ q)),
    )
    | inr (x, e, m) ↦
        let t = (K.get onion_service (place idx) s).1 in
        let free : L.contents t onion_service (place idx) ≡ none =
          ap (λ z. z onion_service (place idx)) (L.get-keeps onion_service (place idx) s)
          ∙ L.get-missing onion_service (place idx) s x e m in
        let (o, c) = creates (backend K b idx) t free in
        (
          rw (e, known, m, c) refl,
          rw (e, known, m, c)
              (λ q.
                some-ne-none o (sym (L.create-stored onion_service (backend K b idx) o t c) ∙ q)),
        )
  ]

  from_one :
      (count idx : ℕ) (s : K.State)
      → (backends_from K b (suc count) idx s).1
        ≡ (backends_from K b count (idx + 1) (one idx s).1).1
  unfolding backends_from reconcile_backend go_on attempt ◌>>=◌
  from_one count idx s = rw (backend_named b idx, (one_step idx s).0) refl

  backends_from-Present :
      (count idx j : ℕ) (s : K.State)
      → idx ≤ j
      → j < idx + count
      → Present L onion_service (place j) (backends_from K b count idx s).1
  backends_from-Present zero idx j s l h = absurd (omega arith)
  backends_from-Present (suc count) idx j s l h = elim (ℕ_discrete idx j) [
    | yes e ↦ subst (Present L onion_service (place j)) (sym (from_one count idx s)) (
        (backends_from-Keeps L (Present L onion_service (place j)) b
            (Present-guarded L b.object_meta onion_service (place j) (λ q. cc)) count (idx + 1)).at
          (one idx s).1
          (subst (λ z. Present L onion_service (place z) (one idx s).1) e (one_step idx s).1))
    | no d ↦
        subst (Present L onion_service (place j)) (sym (from_one count idx s))
          (backends_from-Present count (idx + 1) j (one idx s).1 (omega arith) (omega arith))
  ]

  -- Once the address of the master is known, and where a read of an OnionService fails only if there is none and a new
  -- one can be made, reconciling the backends leaves an OnionService at the place of every backend, from 1 to the
  -- number that the spec asks for.
  pub reconcile_backends-provides :
      (s : K.State) (j : ℕ)
      → 1 ≤ j
      → j ≤ b.spec.backends
      → L.contents (reconcile_backends K b s).1 onion_service (key_of onion_service (backend K b j))
        ≢ none
  unfolding reconcile_backends
  reconcile_backends-provides s j l h = backends_from-Present b.spec.backends 1 j s l (omega arith)
