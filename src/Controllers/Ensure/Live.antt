-- ===== src/Controllers/Ensure/Live.antt =====
-- What a reconcile function does to an object that is there and that its owner controls.
use tor_controller.Base.{Option, none, some}
use tor_controller.Base.Exec.{ok, err}
use tor_controller.Base.{◌≢◌}
use tor_controller.Base.Exec.{crash, caught, continue}
use tor_controller.Base.{Option, none, some}
use tor_controller.Base.{◌≡◌, refl, true, false}
use tor_controller.Base.Exec.{Result, ok, err, panic, pure, attempt, return_error, ◌>>=◌}
use tor_controller.Kube.Types.{ObjectMeta}
use tor_controller.Kube.Client.{Kube, Kind, Object, meta, key_of}
use tor_controller.Controllers.Ensure.{
  Plan, checked, on_found, with_object, if_controlled, update_if_changed, ensure,
}

pub return_error-state : {S E : Type 0} (e : Option E) (s : S) → (return_error e s).1 ≡ s
unfolding return_error
return_error-state none s = refl
return_error-state (some e) s = refl

-- An error that is not nil is returned.
pub return_error-reports :
    {S E : Type 0} (e : Option E) (s : S) → e ≢ none → (x : E) × ((return_error e s).0 ≡ err x)
unfolding return_error
return_error-reports none s d = absurd (d refl)
return_error-reports (some e) s d = (e, refl)

module _ (K : Kube) (owner : ObjectMeta) (k : Kind) (p : Plan K k) where
  checked-state :
      (fail : K.Error → Option K.Error) (r : Result K.Error (Object k)) (s : K.State)
      → (checked K fail r s).1 ≡ s
  unfolding checked pure crash return_error
  checked-state fail (ok a) s = refl
  checked-state fail (err e) s = return_error-state (fail e) s
  checked-state fail panic s = refl

  written :
      (wanted : Object k) (s : K.State) (r : Result K.Error (Object k)) (t : K.State)
      → (continue (caught r) (checked K p.fail_update) t).1 ≡ t
  unfolding attempt
  written wanted s (ok a) t = checked-state p.fail_update (ok a) t
  written wanted s (err e) t = checked-state p.fail_update (err e) t
  written wanted s panic t = refl

  pub ensure-live :
      (s : K.State) (x : Object k)
      → (K.get k (key_of k p.desired) s).0 ≡ ok x
      → K.is_controlled_by (meta k x) owner ≡ true
      → p.equal x p.desired ≡ false
      → (ensure K owner k p s).1 ≡ (K.update k p.desired (K.get k (key_of k p.desired) s).1).1
  unfolding ensure with_object on_found if_controlled update_if_changed attempt ◌>>=◌
  ensure-live s x g c d =
      rw (g, c, d)
        (written p.desired s (K.update k p.desired (K.get k (key_of k p.desired) s).1).0 _)
