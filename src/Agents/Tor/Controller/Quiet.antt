-- ===== src/Agents/Tor/Controller/Quiet.antt =====
-- A sync after a sync.
use Prim.Native.String.{len}
use tor_controller.Base.{
  arith, ◌≡◌, refl, String, Bool, true, false, ◌||◌, ltb, if◌then◌else◌, ◌==◌, str_eq,
}
use tor_controller.Base.Exec.Leads.{
  Leads, Leads-pure, Leads-if, Leads-bind, Leads-weaken, Leads-keeps,
}
use tor_controller.Base.Disk.{Disk, Os}
use tor_controller.Apis.Types.{OnionService}
use tor_controller.Apis.OnionServiceUtil.{get_version}
use tor_controller.Controllers.Ensure.Keeps.{Keeps}
use tor_controller.Agents.Tor.Config.{tor_config_for_service, ob_config_for_service}
use tor_controller.Agents.Tor.Files.{Io}
use tor_controller.Agents.Tor.Files.Elsewhere.{At}
use tor_controller.Agents.Tor.Controller.Paths.{client_file-ne-ob_config, key_file-ne-ob_config}
use tor_controller.Agents.Tor.Controller.Kept.{copy_keys-Keeps, copy_authorized_clients-Keeps}
use tor_controller.Agents.Tor.Controller.Prepared.{Holds, read-Tells}
use tor_controller.Agents.Tor.Controller.Ready.{Ready, copy_keys-TorReady, clients-TorReady}
use tor_controller.Agents.Tor.Controller.{
  tor_file_path, ob_config_path, write_if, sync_torfile, copy_keys, copy_authorized_clients,
  write_ob_config, sync_ob_config, prepare, join, public_key_file_name, private_key_file_name,
}

module _ (onion : OnionService) (os : Os) where
  write_none :
      (p config message : String) (P : Disk → Type 0) (reload : Bool)
      → reload ≡ false
      → Leads P (write_if os reload p config message) (λ b d. (b ≡ false) × P d)
  unfolding write_if
  write_none p config message P true z = absurd (cc)
  write_none p config message P false z = Leads-pure false (λ d h. (refl, h))

  -- A condition on the value does not change what is done.
  under :
      {A : Type 0} {C : Type 0} {P : Disk → Type 0} {Q : A → Disk → Type 0} (m : Io A)
      → (C → Leads P m Q)
      → Leads (λ d. C × P d) m Q
  under m k = record { at = λ s a p h. (k p.0).at s a p.1 h }

  torfile-quiet : Leads (Ready onion) (sync_torfile os onion) (λ b d. (b ≡ false) × Ready onion d)
  unfolding sync_torfile
  torfile-quiet =
      Leads-bind _ _
        (read-Tells os "reading torfile" (tor_config_for_service onion) tor_file_path (Ready onion))
        (λ reload.
          let write =
            write_if os reload tor_file_path (tor_config_for_service onion) "reloading service" in
          Leads-weaken write (λ d h. (h.1.1 h.0.0, h.0)) (λ b d h. h)
            (under write (
              write_none tor_file_path (tor_config_for_service onion) "reloading service"
                (Ready onion) reload)))

  version_name :
      (b : Bool) (s t : String)
      → str_eq (join "/run/tor/service" s) ob_config_path ≡ false
      → str_eq (join "/run/tor/service" t) ob_config_path ≡ false
      → str_eq (join "/run/tor/service" (if b then s else t)) ob_config_path ≡ false
  version_name true s t h k = h
  version_name false s t h k = k

  copy_keys-ObReady :
      Keeps (At ob_config_path (Holds (ob_config_for_service onion))) (copy_keys os onion)
  unfolding join
  copy_keys-ObReady =
      copy_keys-Keeps ob_config_path (Holds (ob_config_for_service onion)) os onion
        (key_file-ne-ob_config "hostname" refl)
        (key_file-ne-ob_config (public_key_file_name (get_version onion.spec)) (
          version_name (get_version onion.spec == 2) "public_key" "hs_ed25519_public_key" refl
            refl))
        (key_file-ne-ob_config (private_key_file_name (get_version onion.spec)) (
          version_name (get_version onion.spec == 2) "private_key" "hs_ed25519_secret_key" refl
            refl))

  clients-ObReady :
      Keeps (At ob_config_path (Holds (ob_config_for_service onion))) (copy_authorized_clients os)
  clients-ObReady =
      copy_authorized_clients-Keeps ob_config_path (Holds (ob_config_for_service onion)) os
        client_file-ne-ob_config

  Keeps-Ready :
      (m : Io (Unit {0}))
      → Keeps (At tor_file_path (Holds (tor_config_for_service onion))) m
      → Keeps (At ob_config_path (Holds (ob_config_for_service onion))) m
      → (d : Disk) → Ready onion d
      → Ready onion (m d).1
  Keeps-Ready m k l d h = (k.at d h.0, λ c. l.at d (h.1 c))

  quiet_or : (a b : Bool) → a ≡ false → b ≡ false → (a || b) ≡ false
  quiet_or a b h k = ground arith

  ob_config-quiet :
      (reload : Bool)
      → reload ≡ false
      → Leads (Ready onion) (sync_ob_config os onion reload) (λ b d. b ≡ false)
  unfolding sync_ob_config write_ob_config
  ob_config-quiet reload z =
      Leads-if (ltb 0 (len onion.spec.master_onion_address)) _ _
        (λ master.
          Leads-bind _ _
            (read-Tells os "reading ob_config" (ob_config_for_service onion) ob_config_path
              (Ready onion))
            (λ differs.
              let write =
                write_if os (reload || differs) ob_config_path (ob_config_for_service onion)
                  "writing ob_config" in
              Leads-weaken write (λ d h. (quiet_or reload differs z (h.1.1 (h.0.1 master)), tt))
                (λ b d h. h.0)
                (under write (
                  write_none ob_config_path (ob_config_for_service onion) "writing ob_config"
                    (λ d. Unit {0}) (reload || differs)))))
        (λ _. Leads-pure reload (λ d h. z))

  -- Where the files hold the configuration, a preparation that returns no error asks for no reload.
  pub prepare-quiet : Leads (Ready onion) (prepare os onion) (λ b d. b ≡ false)
  unfolding prepare
  prepare-quiet = Leads-bind (sync_torfile os onion) _ torfile-quiet (λ reload. under _ (λ z.
      Leads-bind (copy_keys os onion) _
        (Leads-keeps (copy_keys os onion)
          (Keeps-Ready (copy_keys os onion) (copy_keys-TorReady onion os) copy_keys-ObReady))
        (λ _.
          Leads-bind (copy_authorized_clients os) _
            (Leads-keeps (copy_authorized_clients os) (
              Keeps-Ready (copy_authorized_clients os) (clients-TorReady onion os) clients-ObReady))
            (λ _. ob_config-quiet reload z))))
