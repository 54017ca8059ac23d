-- ===== src/Controllers/OnionBalancedService/Backends/Errors.antt =====
-- Errors of single backends, and a master without an address.
use tor_controller.Base.{ℕ, zero, suc, ◌+◌, ◌≡◌, ◌≢◌, refl, ◌∙◌, true, str_eq}
use tor_controller.Base.Exec.{Result, ok, err, panic, pure, attempt, caught, continue, ◌>>=◌}
use tor_controller.Kube.Client.{Kube, ServerLaws, onion_service, key_of}
use tor_controller.Apis.Types.{OnionService, OnionBalancedService}
use tor_controller.Apis.OnionBalancedServiceUtil.{onion_service_backend_name}
use tor_controller.Controllers.Ensure.{Done}
use tor_controller.Controllers.Ensure.Keeps.{
  Keeps, Keeps-bind, Keeps-if, Keeps-pure, Keeps-raise, Keeps-attempt,
}
use tor_controller.Controllers.OnionBalancedService.Backends.{
  backend, with_master, reconcile_backend, go_on, backends_from, reconcile_backends,
}

gone_on :
    (K : Kube) (b : OnionBalancedService) (rest : Done K) (r : Result K.Error (Unit {0}))
    (s : K.State)
    → ((e : K.Error) → (rest s).0 ≢ err e)
    → (e : K.Error) → (continue (caught r) (go_on K b rest) s).0 ≢ err e
unfolding go_on
gone_on K b rest (ok a) s k e = k e
gone_on K b rest (err x) s k e = k e
gone_on K b rest panic s k e = λ h. cc

module _ (K : Kube) (b : OnionBalancedService) where
  backends_from-absorbs :
      (count idx : ℕ) (s : K.State) (e : K.Error) → (backends_from K b count idx s).0 ≢ err e
  unfolding backends_from attempt ◌>>=◌ pure
  backends_from-absorbs zero idx s e = λ h. cc
  backends_from-absorbs (suc count) idx s e =
      gone_on K b (backends_from K b count (idx + 1)) (reconcile_backend K b idx s).0
        (reconcile_backend K b idx s).1
        (backends_from-absorbs count (idx + 1) (reconcile_backend K b idx s).1) e

  -- Whatever the calls answer, reconciling the backends returns no error.
  pub reconcile_backends-absorbs :
      (s : K.State) (e : K.Error) → (reconcile_backends K b s).0 ≢ err e
  unfolding reconcile_backends
  reconcile_backends-absorbs s e = backends_from-absorbs b.spec.backends 1 s e

module _ {K : Kube} (L : ServerLaws K) (b : OnionBalancedService)
    (no_master : str_eq b.status.hostname "" ≡ true) (s : K.State) where
  abbrev Same : K.State → Type 0
  Same t = L.contents t ≡ L.contents s

  raised : (idx : ℕ) (r : Result K.Error OnionService) → Keeps Same (with_master K b idx r)
  unfolding with_master
  raised idx r = rw no_master (Keeps-raise (K.new_error "OnionBalancedService Hostname is not set"))

  reconcile_backend-Same : (idx : ℕ) → Keeps Same (reconcile_backend K b idx)
  unfolding reconcile_backend
  reconcile_backend-Same idx =
      Keeps-if (str_eq (onion_service_backend_name b idx) "") _ _ (λ _. Keeps-pure tt)
        (λ _.
          Keeps-bind (attempt (K.get onion_service (key_of onion_service (backend K b idx)))) _
            (Keeps-attempt _ (record {
              at = λ t h. L.get-keeps onion_service (key_of onion_service (backend K b idx)) t ∙ h;
            }))
            (raised idx))

  backends_from-Same : (count idx : ℕ) → Keeps Same (backends_from K b count idx)
  unfolding backends_from go_on
  backends_from-Same zero idx = Keeps-pure tt
  backends_from-Same (suc count) idx =
      Keeps-bind (attempt (reconcile_backend K b idx)) _
        (Keeps-attempt (reconcile_backend K b idx) (reconcile_backend-Same idx))
        (λ r. backends_from-Same count (idx + 1))

  -- While the address of the master is not known, no backend is made and the cluster stays as it is.
  pub reconcile_backends-waits : L.contents (reconcile_backends K b s).1 ≡ L.contents s
  unfolding reconcile_backends
  reconcile_backends-waits = (backends_from-Same b.spec.backends 1).at s refl
