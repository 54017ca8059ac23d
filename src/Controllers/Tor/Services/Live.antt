-- ===== src/Controllers/Tor/Services/Live.antt =====
-- The service of a Tor is written on every run.
use tor_controller.Base.{◌≡◌, ◌≢◌, refl, ap, true, false, Bool-cases, inl, inr}
use tor_controller.Base.Exec.{ok}
use tor_controller.Kube.Types.{ObjectMeta, Service}
use tor_controller.Kube.Client.{Kube, service, key_of}
use tor_controller.Apis.Types.{Tor}
use tor_controller.Apis.Format.{suffixed-ne-empty}
use tor_controller.Apis.TorUtil.{service_name}
use tor_controller.Controllers.Ensure.Live.{ensure-live}
use tor_controller.Controllers.Equal.{service_equal}
use tor_controller.Controllers.Equal.Same.{service_equal-meta}
use tor_controller.Controllers.Tor.Services.{tor_service, service_plan, reconcile_service}

never_equal :
    (K : Kube) (t : Tor) (x : Service)
    → x.object_meta.uid ≢ ""
    → service_equal K x (tor_service K t) ≡ false
unfolding tor_service
never_equal K t x live = elim (Bool-cases (service_equal K x (tor_service K t))) [
  | inl e ↦
      absurd (live (ap (λ (m : ObjectMeta). m.uid) (service_equal-meta K x (tor_service K t) e)))
  | inr e ↦ e
]

-- A service that carries a uid, as every service in a cluster does, is never equal to the one that
-- is built: where the Tor controls it, each run sends an update, even if the specs match.
pub reconcile_service-always_updates :
    (K : Kube) (t : Tor) (s : K.State) (x : Service)
    → (K.get service (key_of service (tor_service K t)) s).0 ≡ ok x
    → K.is_controlled_by x.object_meta t.object_meta ≡ true
    → x.object_meta.uid ≢ ""
    → (reconcile_service K t s).1
      ≡ (K.update service
          (tor_service K t)
          (K.get service (key_of service (tor_service K t)) s).1).1
unfolding reconcile_service service_name
reconcile_service-always_updates K t s x g c live =
    rw (suffixed-ne-empty t.object_meta.name "-tor-svc" refl)
      (ensure-live K t.object_meta service (service_plan K t) s x g c (never_equal K t x live))
