-- ===== src/Controllers/OnionBalancedService/Reconcile/Missing.antt =====
-- A run of the OnionBalancedService reconciler that cannot read the OnionBalancedService.
use tor_controller.Base.{◌≡◌, ◌≢◌, refl, true, false, some, none, Option}
use tor_controller.Base.Exec.{ok, err, attempt, return_error, ◌>>=◌, pure}
use tor_controller.Kube.Types.{NamespacedName}
use tor_controller.Kube.Client.{Kube, onion_balanced_service, ErrorLaws}
use tor_controller.Apis.Types.{ProjectConfig}
use tor_controller.Controllers.OnionBalancedService.Reconcile.{finished, on_balanced, reconcile}

module _ (K : Kube) (config : ProjectConfig) where
  finished-state : (e : Option K.Error) (s : K.State) → (finished K config e s).1 ≡ s
  unfolding return_error ◌>>=◌ pure
  finished-state none s = refl
  finished-state (some e) s = refl

  pub finished-reports :
      (e : Option K.Error) (s : K.State)
      → e ≢ none
      → (x : K.Error) × ((finished K config e s).0 ≡ err x)
  unfolding return_error ◌>>=◌ pure
  finished-reports none s d = absurd (d refl)
  finished-reports (some e) s d = (e, refl)

-- The run changes nothing if the OnionBalancedService cannot be read. It ends without an error and
-- is not asked for again if the OnionBalancedService does not exist, and it ends with an error if
-- the read failed otherwise.
pub reconcile-absent :
    {K : Kube} (E : ErrorLaws K) (config : ProjectConfig) (request : NamespacedName) (s : K.State)
    (e : K.Error)
    → (K.get onion_balanced_service request s).0 ≡ err e
    → ((reconcile K config request s).1 ≡ (K.get onion_balanced_service request s).1)
      × (K.is_not_found e ≡ true → (reconcile K config request s).0 ≡ ok false)
      × (K.is_not_found e ≡ false → (x : K.Error) × ((reconcile K config request s).0 ≡ err x))
unfolding reconcile on_balanced attempt ◌>>=◌ return_error pure
reconcile-absent {K} E config request s e h = (
  rw h (
      finished-state K config
        (K.wrap (K.ignore_not_found (some e)) "unable to fetch OnionBalancedService")
        (K.get onion_balanced_service request s).1),
  λ m. rw (h, E.ignore-missing e m, E.wrap-nil "unable to fetch OnionBalancedService") refl,
  λ m.
      rw (h, E.ignore-other e m)
        (finished-reports K config (K.wrap (some e) "unable to fetch OnionBalancedService")
          (K.get onion_balanced_service request s).1
          (E.wrap-some e "unable to fetch OnionBalancedService")),
)
