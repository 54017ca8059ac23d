-- ===== src/Agents/OnionBalance/Controller/Written.antt =====
-- What the configuration file holds after a sync.
use tor_controller.Base.{
  String, true, some, ◌≡◌, refl, sym, ap, ◌∙◌, inl, inr, Bool-cases, str_eq, eq_iff,
}
use tor_controller.Base.Exec.{
  Result, ok, err, panic, raise, crash, attempt, continue, caught, ◌>>=◌, run,
}
use tor_controller.Apis.Types.{OnionBalancedService}
use tor_controller.Agents.OnionBalance.Controller.{
  Machine, MachineLaws, on_write, save, on_read, on_config, onion_balance_config_for_service,
  on_parsed, on_stored, sync,
}

module _ {M : Machine} (L : MachineLaws M) where
  written :
      (text : String) (s : M.State) (r : Result M.Error (Unit {0}))
      → (r ≡ ok tt → L.content s ≡ text)
      → (continue (caught r) (on_write M) s).0 ≡ ok tt
      → L.content (continue (caught r) (on_write M) s).1 ≡ text
  unfolding on_write run raise crash
  written text s (ok a) k h = L.reload-keeps s ∙ k refl
  written text s (err e) k h = absurd (cc)
  written text s panic k h = absurd (cc)

  save-writes :
      (torfile text : String) (s : M.State)
      → L.content s ≡ torfile
      → (save M torfile text s).0 ≡ ok tt
      → L.content (save M torfile text s).1 ≡ text
  unfolding save run attempt ◌>>=◌
  save-writes torfile text s c = elim (Bool-cases (str_eq torfile text)) [
    | inl e ↦ rw e (λ h. L.ensure_running-keeps s ∙ c ∙ (eq_iff torfile text).0 e)
    | inr e ↦
        rw e
          (written text (M.write_config text s).1 (M.write_config text s).0 (L.write-stores text s))
  ]

  on_read-writes :
      (text : String) (s t : M.State) (r : Result M.Error String)
      → ((x : String) → r ≡ ok x → L.content t ≡ x)
      → ((e : M.Error) → r ≡ err e → M.is_not_exist e ≡ true → L.content t ≡ "")
      → (continue (caught r) (on_read M text) t).0 ≡ ok tt
      → L.content (continue (caught r) (on_read M text) t).1 ≡ text
  unfolding on_read raise crash
  on_read-writes text s t (ok x) found missing = save-writes x text t (found x refl)
  on_read-writes text s t (err e) found missing = elim (Bool-cases (M.is_not_exist e)) [
    | inl m ↦ rw m (save-writes "" text t (missing e refl m))
    | inr m ↦ rw m (λ h. absurd (cc))
  ]
  on_read-writes text s t panic found missing = λ h. absurd (cc)

  on_config-writes :
      (r : Result M.Error String) (s : M.State)
      → (on_config M r s).0 ≡ ok tt
      → r ≡ ok (L.content (on_config M r s).1)
  unfolding on_config raise crash attempt ◌>>=◌
  on_config-writes (ok text) s h =
      ap (λ x. ok x)
        (sym (
          on_read-writes text s (M.read_config s).1 (M.read_config s).0
            (λ x e. L.read-keeps s ∙ L.read-found s x e)
            (λ e q m. L.read-keeps s ∙ L.read-missing s e q m) h))
  on_config-writes (err e) s h = absurd (cc)
  on_config-writes panic s h = absurd (cc)

  -- A sync that ends without an error, of a key whose object is in the store and is an
  -- OnionBalancedService, leaves the printed configuration of its backends in the file.
  pub sync_writes :
      (key : String) (s : M.State) (o : M.Stored) (b : OnionBalancedService)
      → M.get_by_key key s ≡ ok (some o)
      → M.parse o ≡ ok b
      → (sync M key s).0 ≡ ok tt
      → onion_balance_config_for_service M s b ≡ ok (L.content (sync M key s).1)
  unfolding sync on_stored on_parsed
  sync_writes key s o b g p =
      rw (g, p) (on_config-writes (onion_balance_config_for_service M s b) s)
