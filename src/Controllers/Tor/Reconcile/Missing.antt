-- ===== src/Controllers/Tor/Reconcile/Missing.antt =====
-- A run of the Tor reconciler that cannot read the Tor.
use tor_controller.Controllers.Ensure.Live.{return_error-reports}
use tor_controller.Controllers.Ensure.Live.{return_error-state}
use tor_controller.Base.{◌≡◌, refl, true, false, some}
use tor_controller.Base.Exec.{ok, err, attempt, return_error, ◌>>=◌}
use tor_controller.Kube.Types.{NamespacedName}
use tor_controller.Kube.Client.{Kube, tor, ErrorLaws}
use tor_controller.Apis.Types.{ProjectConfig}
use tor_controller.Controllers.Tor.Reconcile.{on_tor, reconcile}

-- The run changes nothing if the Tor cannot be read. It ends without an error if the Tor does not
-- exist, and with one if the read failed otherwise.
pub reconcile-unread :
    {K : Kube} (E : ErrorLaws K) (config : ProjectConfig) (request : NamespacedName) (s : K.State)
    (e : K.Error)
    → (K.get tor request s).0 ≡ err e
    → ((reconcile K config request s).1 ≡ (K.get tor request s).1)
      × (K.is_not_found e ≡ true → (reconcile K config request s).0 ≡ ok tt)
      × (K.is_not_found e ≡ false → (x : K.Error) × ((reconcile K config request s).0 ≡ err x))
unfolding reconcile on_tor attempt ◌>>=◌ return_error
reconcile-unread {K} E config request s e h = (
  rw h (
      return_error-state (K.wrap (K.ignore_not_found (some e)) "unable to fetch Tor")
        (K.get tor request s).1),
  λ m. rw (h, E.ignore-missing e m, E.wrap-nil "unable to fetch Tor") refl,
  λ m.
      rw (h, E.ignore-other e m)
        (return_error-reports (K.wrap (some e) "unable to fetch Tor") (K.get tor request s).1
          (E.wrap-some e "unable to fetch Tor")),
)
