-- ===== src/Controllers/OnionBalancedService/Backends.antt =====
-- controllers/tor/onionbalancedservice_backends.go
pub mod Errors
pub mod Provided
use tor_controller.Base.{ℕ, zero, suc, ◌+◌, String, none, some, List, if◌then◌else◌, str_eq}
use tor_controller.Base.Exec.{
  Result, ok, err, panic, pure, raise, crash, attempt, return_error, ◌>>=◌,
}
use tor_controller.Kube.Client.{Kube, onion_service, key_of}
use tor_controller.Apis.Types.{OnionService, OnionBalancedService}
use tor_controller.Apis.OnionBalancedServiceUtil.{onion_service_backend_name}
use tor_controller.Controllers.Ensure.{Done, named, wrapped, checked}
use tor_controller.Controllers.Objects.{owned_meta}

module _ (K : Kube) (balanced : OnionBalancedService) where
  -- The backend of an index: the template, with the version and the address of the master.
  unfoldable pub backend : ℕ → OnionService
  unfolding onion_service_backend_name
  backend idx = record {
    object_meta =
        owned_meta K balanced.object_meta "OnionBalancedService"
          (onion_service_backend_name balanced idx) none;
    spec = record balanced.spec.template_spec {
      version = balanced.spec.version;
      master_onion_address = balanced.status.hostname;
    };
    status = record { hostname = ""; target_cluster_ip = "" };
  }

  unfoldable pub on_backend : ℕ → Result K.Error OnionService → Done K
  unfolding backend checked
  on_backend idx (ok o) = pure tt
  on_backend idx (err e) =
      if K.is_not_found e
      then attempt (K.create onion_service (backend idx))
        >>= checked K (wrapped K "unable to create onionServiceBackend")
      else return_error (wrapped K "unable to get onionServiceBackend" e)
  on_backend idx panic = crash

  -- The backend is read before the hostname is tested.
  unfoldable pub with_master : ℕ → Result K.Error OnionService → Done K
  unfolding on_backend
  with_master idx found =
      if str_eq balanced.status.hostname ""
      then raise (K.new_error "OnionBalancedService Hostname is not set")
      else on_backend idx found

  unfoldable pub reconcile_backend : ℕ → Done K
  unfolding with_master
  reconcile_backend idx =
      named K (onion_service_backend_name balanced idx)
        (attempt (K.get onion_service (key_of onion_service (backend idx))) >>= with_master idx)

  -- An error of one backend is only logged.
  unfoldable pub go_on : Done K → Result K.Error (Unit {0}) → Done K
  go_on rest r = rest

  -- The loop over `count` backends from `idx` on.
  unfoldable pub backends_from : ℕ → ℕ → Done K
  unfolding reconcile_backend go_on
  backends_from zero idx = pure tt
  backends_from (suc count) idx =
      attempt (reconcile_backend idx) >>= go_on (backends_from count (idx + 1))

  unfoldable pub reconcile_backends : Done K
  unfolding backends_from
  reconcile_backends = backends_from balanced.spec.backends 1
