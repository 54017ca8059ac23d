-- ===== src/Tests/TorAgent.antt =====
-- A sync of the tor agent on a disk on which only the mounted files stand.
use tor_controller.Base.{true, false, none, some, List, [], ◌∷◌, ◌≡◌, refl, str_eq, if◌then◌else◌}
use tor_controller.Base.Exec.{ok, ◌>>=◌}
use tor_controller.Base.Disk.{
  Disk, File, Os, Entry, stat, open_file, read_file, write_file, chmod, mkdir, read_dir,
}
use tor_controller.Apis.OnionServiceUtil.{get_version}
use tor_controller.Agents.Tor.Controller.Paths.{unequal}
use tor_controller.Kube.Client.{onion_service}
use tor_controller.Kube.Full.{full, everything}
use tor_controller.Apis.Types.{OnionService}
use tor_controller.Agents.Daemon.{new_daemon, tor_reload}
use tor_controller.Agents.Tor.Files.{copy_if_not_exist}
use tor_controller.Agents.Tor.Files.Copied.{copy_if_not_exist-copies}
use tor_controller.Agents.Tor.Controller.{Agent, sync_onion_service}
use tor_controller.Agents.Tor.Controller.Ready.{Ready}
use tor_controller.Agents.Tor.Controller.Again.{
  sync_onion_service-Ready, sync_onion_service-settles,
}

abbrev auth_file : List Entry
auth_file =
    record { name = "alice.auth"; directory = false }
    ∷ record { name = "..data"; directory = true }
    ∷ []

-- An operating system on which every call succeeds.
abbrev calm : Os
calm = record {
  read_fault = λ p d. none;
  stat_fault = λ p d. none;
  write_fault = λ p d. none;
  mkdir_fault = λ p d. none;
  chmod_fault = λ p d. none;
  read_dir = λ p d. ok auth_file;
  created_mode = λ m. m;
}

abbrev address : File
address = record { text = "abc.onion\n"; mode = 256 }

abbrev mounted : Disk
mounted = record {
  files = λ p. if str_eq p "/run/tor/service/key/hostname" then some address else none;
  is_dir = λ p. false;
}

abbrev plain : OnionService
plain = everything onion_service (record { name = "hidden"; namespace = "apps" })

abbrev hidden : OnionService
hidden = record plain { spec = record plain.spec { master_onion_address = "master.onion" } }

abbrev agent : Agent full
agent = record { disk = mounted; daemon = new_daemon; cluster = tt }

copy_if_not_exist-copies_example :
    (f : File) × (mounted.files "/run/tor/service/key/hostname" ≡ some f)
    × ((copy_if_not_exist calm "/run/tor/service/key/hostname" "/run/tor/service/hostname"
            mounted).1.files
          "/run/tor/service/hostname"
        ≡ some f)
unfolding copy_if_not_exist stat ◌>>=◌ open_file write_file chmod
copy_if_not_exist-copies_example =
    copy_if_not_exist-copies calm "/run/tor/service/key/hostname" "/run/tor/service/hostname"
      (unequal "/run/tor/service/hostname" "/run/tor/service/key/hostname" refl) mounted refl refl

sync_onion_service-Ready_example : Ready hidden (sync_onion_service full calm hidden agent).1.disk
unfolding sync_onion_service ◌>>=◌ read_file write_file copy_if_not_exist stat chmod get_version
    read_dir mkdir tor_reload new_daemon
sync_onion_service-Ready_example = sync_onion_service-Ready full calm hidden agent refl

sync_onion_service-settles_example :
    (sync_onion_service full calm hidden (sync_onion_service full calm hidden agent).1).1.daemon
    ≡ (sync_onion_service full calm hidden agent).1.daemon
unfolding sync_onion_service ◌>>=◌ read_file write_file copy_if_not_exist stat chmod get_version
    read_dir mkdir tor_reload new_daemon
sync_onion_service-settles_example = sync_onion_service-settles full calm hidden agent refl
