-- ===== src/Agents/OnionBalance/Controller/Succeeds.antt =====
-- When a sync of the onionbalance agent ends without an error.
use tor_controller.Base.{String, true, some, ◌≡◌, ◌≢◌, refl, inl, inr, Bool-cases, str_eq}
use tor_controller.Base.Exec.{Result, ok, err, panic, attempt, caught, continue, ◌>>=◌, run}
use tor_controller.Apis.Types.{OnionBalancedService}
use tor_controller.Agents.OnionBalance.Controller.{
  Machine, on_write, save, on_read, on_config, onion_balance_config_for_service, on_parsed,
  on_stored, sync,
}

module _ (M : Machine)
    (writes : (text : String) (s : M.State) → (M.write_config text s).0 ≡ ok tt) where
  save-succeeds : (torfile text : String) (s : M.State) → (save M torfile text s).0 ≡ ok tt
  unfolding save run attempt ◌>>=◌ on_write
  save-succeeds torfile text s = elim (Bool-cases (str_eq torfile text)) [
    | inl e ↦ rw e refl
    | inr e ↦ rw (e, writes text s) refl
  ]

  on_read-succeeds :
      (text : String) (t : M.State) (r : Result M.Error String)
      → ((e : M.Error) → r ≡ err e → M.is_not_exist e ≡ true)
      → r ≢ panic
      → (continue (caught r) (on_read M text) t).0 ≡ ok tt
  unfolding on_read
  on_read-succeeds text t (ok x) k n = save-succeeds x text t
  on_read-succeeds text t (err e) k n = rw (k e refl) (save-succeeds "" text t)
  on_read-succeeds text t panic k n = absurd (n refl)

  -- If writes of the file do not fail, a read fails only where there is no file, the configuration of
  -- the key's OnionBalancedService can be printed, and the daemon's Reload returns where it is
  -- called, then the sync ends without an error.
  pub sync_succeeds :
      (key : String) (s : M.State) (o : M.Stored) (b : OnionBalancedService) (text : String)
      → M.get_by_key key s ≡ ok (some o)
      → M.parse o ≡ ok b
      → onion_balance_config_for_service M s b ≡ ok text
      → ((e : M.Error) → (M.read_config s).0 ≡ err e → M.is_not_exist e ≡ true)
      → (M.read_config s).0 ≢ panic
      → (sync M key s).0 ≡ ok tt
  unfolding sync on_stored on_parsed on_config attempt ◌>>=◌
  sync_succeeds key s o b text g p c k n =
      rw (g, p, c) (on_read-succeeds text (M.read_config s).1 (M.read_config s).0 k n)
