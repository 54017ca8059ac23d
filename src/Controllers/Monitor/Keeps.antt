-- ===== src/Controllers/Monitor/Keeps.antt =====
-- A guarded invariant survives reconcileServiceMonitor: only a monitor that was read and that the
-- owner controls is deleted.
use tor_controller.Base.{
  str_eq, String, ◌≡◌, subst, sym, Bool, true, some, Option, inl, inr, Bool-cases, not,
}
use tor_controller.Base.Exec.{Result, ok, err, panic, attempt}
use tor_controller.Kube.Types.{ObjectMeta}
use tor_controller.Kube.Client.{
  Kube, Object, service_monitor, custom_resource_definition, key_of, meta, ServerLaws,
}
use tor_controller.Controllers.Ensure.{Plan, checked, if_controlled}
use tor_controller.Controllers.Ensure.Keeps.{
  Keeps, Keeps-bind, Keeps-if, Keeps-pure, Keeps-crash, Keeps-attempt, bind_keeps,
}
use tor_controller.Controllers.Ensure.Guarded.{
  Guarded, Controlled, checked-Keeps, if_controlled-KeepsAt, update_if_changed-Controlled,
  with_object-Keeps,
}
use tor_controller.Controllers.Monitor.{
  installed, monitoring_installed, monitors_definition, delete_or_update, ensure_monitor,
}

module _ {K : Kube} (L : ServerLaws K) (owner : ObjectMeta) (P : K.State → Type 0)
    (g : Guarded L owner P) where
  installed-Keeps :
      (r : Result K.Error (Object custom_resource_definition)) → Keeps P (installed K r)
  installed-Keeps (ok o) = Keeps-pure true
  installed-Keeps (err e) = Keeps-pure (not (K.is_not_found e))
  installed-Keeps panic = Keeps-crash

  pub monitoring_installed-Keeps : Keeps P (monitoring_installed K)
  unfolding monitoring_installed
  monitoring_installed-Keeps =
      Keeps-bind (attempt (K.get custom_resource_definition monitors_definition)) (installed K)
        (Keeps-attempt _ (g.get custom_resource_definition monitors_definition)) installed-Keeps

module _ {K : Kube} (L : ServerLaws K) (owner : ObjectMeta) (P : K.State → Type 0)
    (g : Guarded L owner P) (requested : Bool) (p : Plan K service_monitor)
    (fail_delete : K.Error → Option K.Error) where
  delete-keeps :
      (s : K.State) (existing wanted : Object service_monitor)
      → L.contents s service_monitor (key_of service_monitor wanted) ≡ some existing
      → K.is_controlled_by (meta service_monitor existing) owner ≡ true
      → P s
      → P (K.delete service_monitor existing s).1
  delete-keeps s existing wanted e c h =
      g.delete existing s
        (subst (λ n. L.contents s service_monitor n ≡ some existing)
          (sym (L.stored-key s service_monitor (key_of service_monitor wanted) existing e)) e)
        c h

  -- The monitor that is deleted is the one that was read.
  delete_or_update-Controlled :
      Controlled L owner P g service_monitor p (delete_or_update K owner requested p fail_delete)
  unfolding delete_or_update attempt
  delete_or_update-Controlled s existing wanted e c h = elim (Bool-cases requested) [
    | inl wants ↦
        rw wants
          (update_if_changed-Controlled L owner P g service_monitor p s existing wanted e c h)
    | inr unwanted ↦ rw unwanted (
        bind_keeps P (attempt (K.delete service_monitor existing)) (checked K fail_delete) s
          (delete-keeps s existing wanted e c h)
          (λ r _.
            (checked-Keeps K P fail_delete r).at (K.delete service_monitor existing s).1
              (delete-keeps s existing wanted e c h)))
  ]

  pub ensure_monitor-Keeps :
      (name : String) → Keeps P (ensure_monitor K owner requested p fail_delete name)
  unfolding ensure_monitor
  ensure_monitor-Keeps name =
      Keeps-bind (monitoring_installed K) _ (monitoring_installed-Keeps L owner P g) (λ there.
        Keeps-if (not there) _ _ (λ _. Keeps-pure tt)
          (λ _.
            Keeps-if (str_eq name "") _ _ (λ _. Keeps-pure tt)
              (λ _.
                with_object-Keeps L owner P g service_monitor p
                  (if_controlled K owner service_monitor p
                    (delete_or_update K owner requested p fail_delete))
                  (if_controlled-KeepsAt L owner P g service_monitor p
                    (delete_or_update K owner requested p fail_delete)
                    delete_or_update-Controlled))))
