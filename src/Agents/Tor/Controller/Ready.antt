-- ===== src/Agents/Tor/Controller/Ready.antt =====
-- After a sync the files hold the configuration, and the next sync asks for no reload.
use Prim.Native.String.{len}
use tor_controller.Base.{◌≡◌, sym, ◌∙◌, Bool, true, false, ◌||◌, ltb}
use tor_controller.Base.Exec.Leads.{
  Leads, Leads-pure, Leads-if, Leads-bind, Leads-weaken, Leads-and, Leads-keeps,
}
use tor_controller.Base.Disk.{Disk, Os}
use tor_controller.Apis.Types.{OnionService}
use tor_controller.Apis.OnionServiceUtil.{get_version}
use tor_controller.Controllers.Ensure.Keeps.{Keeps}
use tor_controller.Agents.Tor.Config.{tor_config_for_service, ob_config_for_service}
use tor_controller.Agents.Tor.Files.Elsewhere.{At}
use tor_controller.Agents.Tor.Controller.Paths.{
  service_file-ne-torfile, client_file-ne-torfile, ob_config-ne-torfile,
}
use tor_controller.Agents.Tor.Controller.Kept.{copy_keys-Keeps, copy_authorized_clients-Keeps}
use tor_controller.Agents.Tor.Controller.Prepared.{
  Holds, Tells, read-Tells, write_if-holds, write_if-At,
}
use tor_controller.Agents.Tor.Controller.{
  tor_file_path, ob_config_path, write_if, sync_torfile, copy_keys, copy_authorized_clients,
  write_ob_config, sync_ob_config, prepare, public_key_file_name, private_key_file_name,
}

module _ (onion : OnionService) where
  abbrev TorReady : Disk → Type 0
  TorReady d = At tor_file_path (Holds (tor_config_for_service onion)) d

  -- There is a master in front.
  abbrev pub HasMaster : Type 0
  HasMaster = ltb 0 (len onion.spec.master_onion_address) ≡ true

  abbrev ObReady : Disk → Type 0
  ObReady d = HasMaster → At ob_config_path (Holds (ob_config_for_service onion)) d

  -- The torfile holds the configuration, and so does the file of the master's address, if there is
  -- a master.
  abbrev pub Ready : Disk → Type 0
  Ready d =
      At tor_file_path (Holds (tor_config_for_service onion)) d
      × (HasMaster → At ob_config_path (Holds (ob_config_for_service onion)) d)

  module _ (os : Os) where
    sync_torfile-holds : Leads (λ d. Unit {0}) (sync_torfile os onion) (λ b. TorReady)
    unfolding sync_torfile
    sync_torfile-holds =
        Leads-bind _ _
          (read-Tells os "reading torfile" (tor_config_for_service onion) tor_file_path
            (λ d. Unit {0}))
          (λ reload.
            Leads-weaken
              (write_if os reload tor_file_path (tor_config_for_service onion) "reloading service")
              (λ d h. h.1.0) (λ b d h. h.1)
              (write_if-holds os tor_file_path (tor_config_for_service onion) "reloading service"
                reload))

    pub copy_keys-TorReady : Keeps TorReady (copy_keys os onion)
    copy_keys-TorReady =
        copy_keys-Keeps tor_file_path (Holds (tor_config_for_service onion)) os onion
          (service_file-ne-torfile "hostname")
          (service_file-ne-torfile (public_key_file_name (get_version onion.spec)))
          (service_file-ne-torfile (private_key_file_name (get_version onion.spec)))

    pub clients-TorReady : Keeps TorReady (copy_authorized_clients os)
    clients-TorReady =
        copy_authorized_clients-Keeps tor_file_path (Holds (tor_config_for_service onion)) os
          client_file-ne-torfile

    or_false : (a b : Bool) → (a || b) ≡ false → b ≡ false
    or_false true b h = absurd (cc)
    or_false false b h = h

    write_ob_config-holds :
        (reload differs : Bool)
        → Leads
            (λ d. TorReady d × Tells (ob_config_for_service onion) (d.files ob_config_path) differs)
            (write_ob_config os onion reload differs)
            (λ b. Ready)
    unfolding write_ob_config
    write_ob_config-holds reload differs =
        let write =
          write_if os (reload || differs) ob_config_path (ob_config_for_service onion)
            "writing ob_config" in
        Leads-weaken write (λ d h. ((λ z. h.1.0 (or_false reload differs z)), h.0))
          (λ b d h. (h.1, λ _. h.0.1))
          (Leads-and write
            (write_if-At os ob_config_path (ob_config_for_service onion) "writing ob_config"
              tor_file_path (Holds (tor_config_for_service onion)) (reload || differs)
              ob_config-ne-torfile).at
            (write_if-holds os ob_config_path (ob_config_for_service onion) "writing ob_config"
              (reload || differs)))

    sync_ob_config-holds :
        (reload : Bool) → Leads TorReady (sync_ob_config os onion reload) (λ b. Ready)
    unfolding sync_ob_config
    sync_ob_config-holds reload =
        Leads-if (ltb 0 (len onion.spec.master_onion_address)) _ _
          (λ _.
            Leads-bind _ _
              (read-Tells os "reading ob_config" (ob_config_for_service onion) ob_config_path
                TorReady)
              (write_ob_config-holds reload))
          (λ z.
            Leads-pure reload (λ d h. (h, λ m. absurd (let q : true ≡ false = sym m ∙ z in cc))))

    -- Whatever was on the disk, a preparation that returns no error leaves the configuration.
    pub prepare-Ready : Leads (λ d. Unit {0}) (prepare os onion) (λ b. Ready)
    unfolding prepare
    prepare-Ready = Leads-bind (sync_torfile os onion) _ sync_torfile-holds (λ reload.
        Leads-bind (copy_keys os onion) _ (Leads-keeps (copy_keys os onion) copy_keys-TorReady.at)
          (λ _.
            Leads-bind (copy_authorized_clients os) _
              (Leads-keeps (copy_authorized_clients os) clients-TorReady.at)
              (λ _. sync_ob_config-holds reload)))
