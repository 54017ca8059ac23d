-- ===== src/Agents/Tor/Controller.antt =====
-- sync and updateOnionServiceStatus of agents/tor/local/controller.go
pub mod Paths
pub mod Kept
pub mod Prepared
pub mod Ready
pub mod Quiet
pub mod Again
use Prim.Native.String.{len, ◌++◌ as ◌<>◌}
use tor_controller.Base.{
  ℕ, String, Bool, true, false, not, ◌&&◌, ◌||◌, Option, none, some, List, [], ◌∷◌, ltb, ◌==◌,
  if◌then◌else◌, str_eq,
}
use tor_controller.Base.Exec.{
  Result, ok, err, panic, Exec, pure, raise, crash, attempt, ◌>>=◌, ◌>>◌,
}
use tor_controller.Base.Disk.{
  Disk, File, Os, Entry, IoError, is_not_exist, read_file, write_file, stat, mkdir, read_dir,
}
use tor_controller.Kube.Client.{Kube, onion_service}
use tor_controller.Apis.Types.{OnionService}
use tor_controller.Apis.OnionServiceUtil.{get_version}
use tor_controller.Agents.Daemon.{Daemon, tor_reload}
use tor_controller.Agents.Tor.Text.{has_suffix, trim_space}
use tor_controller.Agents.Tor.Config.{tor_config_for_service, ob_config_for_service}
use tor_controller.Agents.Tor.Files.{
  Io, wrapped, reading, default_unix_permission, copy_if_not_exist,
}

abbrev pub tor_file_path : String
tor_file_path = "/run/tor/torfile"

abbrev pub ob_config_path : String
ob_config_path = "/run/tor/service/ob_config"

abbrev pub hostname_path : String
hostname_path = "/run/tor/service/hostname"

abbrev pub authorized_clients_dir : String
authorized_clients_dir = "/run/tor/service/authorized_clients"

-- path.Join of a directory and a name without a slash.
unfoldable pub join : String → String → String
join dir name = dir <> ("/" <> name)

-- An error of a copy is only logged.
abbrev pub logged : Io (Unit {0}) → Io (Unit {0})
logged m = attempt m >> pure tt

abbrev pub public_key_file_name : ℕ → String
public_key_file_name version = if version == 2 then "public_key" else "hs_ed25519_public_key"

abbrev pub private_key_file_name : ℕ → String
private_key_file_name version = if version == 2 then "private_key" else "hs_ed25519_secret_key"

module _ (os : Os) where
  -- A file that does not exist, or that has another text, asks for a reload.
  unfoldable pub changed : String → String → Result IoError String → Io Bool
  changed message config (ok text) = pure (not (str_eq text config))
  changed message config (err e) = if is_not_exist e then pure true else raise (wrapped message e)
  changed message config panic = crash

  unfoldable pub on_written : String → Result IoError (Unit {0}) → Io (Unit {0})
  on_written message (ok a) = pure tt
  on_written message (err e) = raise (wrapped message e)
  on_written message panic = crash

  unfoldable pub write_config : String → String → String → Io (Unit {0})
  unfolding on_written
  write_config path config message =
      reading (write_file os path config default_unix_permission) >>= on_written message

  unfoldable pub write_if : Bool → String → String → String → Io Bool
  unfolding write_config
  write_if reload path config message =
      if reload then write_config path config message >> pure reload else pure reload

  -- The torfile, with serviceReload: whether it was written.
  unfoldable pub sync_torfile : OnionService → Io Bool
  unfolding changed write_if
  sync_torfile onion =
      (reading (read_file os tor_file_path)
        >>= changed "reading torfile" (tor_config_for_service onion))
      >>= λ reload. write_if reload tor_file_path (tor_config_for_service onion) "reloading service"

  -- A file of the directory of keys, copied to the directory of the service.
  unfoldable pub copy_key : String → Io (Unit {0})
  unfolding join
  copy_key name =
      logged
        (copy_if_not_exist os (join "/run/tor/service/key" name) (join "/run/tor/service" name))

  unfoldable pub copy_keys : OnionService → Io (Unit {0})
  unfolding copy_key
  copy_keys onion =
      copy_key "hostname"
      >> (copy_key (public_key_file_name (get_version onion.spec))
          >> copy_key (private_key_file_name (get_version onion.spec)))

  -- log.Fatalf ends the process.
  unfoldable pub on_mkdir : Result IoError (Unit {0}) → Io (Unit {0})
  on_mkdir (ok a) = pure tt
  on_mkdir (err e) = crash
  on_mkdir panic = crash

  unfoldable pub on_clients_dir : Result IoError (Option File) → Io (Unit {0})
  unfolding on_mkdir
  on_clients_dir (ok f) = pure tt
  on_clients_dir (err e) =
      if is_not_exist e then reading (mkdir os authorized_clients_dir) >>= on_mkdir else pure tt
  on_clients_dir panic = crash

  unfoldable pub copy_clients : List Entry → Io (Unit {0})
  unfolding has_suffix join
  copy_clients [] = pure tt
  copy_clients (entry ∷ entries) =
      let rest = copy_clients entries in
      if not entry.directory && has_suffix entry.name ".auth"
      then logged (
          copy_if_not_exist os (join "/run/tor/service/.authorized_clients" entry.name)
            (join authorized_clients_dir entry.name))
        >> rest
      else rest

  unfoldable pub on_listing : Result IoError (List Entry) → Io (Unit {0})
  unfolding on_clients_dir copy_clients
  on_listing (ok entries) =
      (reading (stat os authorized_clients_dir) >>= on_clients_dir) >> copy_clients entries
  on_listing (err e) = pure tt
  on_listing panic = crash

  unfoldable pub copy_authorized_clients : Io (Unit {0})
  unfolding on_listing
  copy_authorized_clients =
      reading (read_dir os "/run/tor/service/.authorized_clients/") >>= on_listing

  -- A torfile that was written has this file written too.
  unfoldable pub write_ob_config : OnionService → Bool → Bool → Io Bool
  unfolding write_if
  write_ob_config onion reload differs =
      write_if (reload || differs) ob_config_path (ob_config_for_service onion) "writing ob_config"

  -- The file of an OnionService with a master in front.
  unfoldable pub sync_ob_config : OnionService → Bool → Io Bool
  unfolding changed write_ob_config
  sync_ob_config onion reload =
      if ltb 0 (len onion.spec.master_onion_address)
      then (reading (read_file os ob_config_path)
          >>= changed "reading ob_config" (ob_config_for_service onion))
        >>= write_ob_config onion reload
      else pure reload

  -- All that sync does to the disk: whether the daemon is to be reloaded.
  unfoldable pub prepare : OnionService → Io Bool
  unfolding sync_torfile copy_keys copy_authorized_clients sync_ob_config
  prepare onion = do
    reload ← sync_torfile onion
    copy_keys onion
    copy_authorized_clients
    sync_ob_config onion reload

-- The disk, the daemon and the cluster behind the client.
pub record Agent (K : Kube) : Type 0 where
  pub disk : Disk
  pub daemon : Daemon
  pub cluster : K.State

module _ (K : Kube) (os : Os) where
  abbrev pub Action : Type 0
  Action = Agent K → Result String (Unit {0}) × Agent K

  abbrev sent : Result K.Error OnionService × K.State → Action
  sent (ok o, c) a = (ok tt, record a { cluster = c })
  sent (err e, c) a = (err "updating status", record a { cluster = c })
  sent (panic, c) a = (panic, record a { cluster = c })

  unfoldable pub set_hostname : OnionService → String → Action
  set_hostname onion hostname a =
      if str_eq hostname onion.status.hostname
      then (ok tt, a)
      else sent
          (K.update_status onion_service
            (record onion { status = record onion.status { hostname = hostname } }) a.cluster)
          a

  unfoldable pub on_hostname : OnionService → Result IoError String → Action
  unfolding set_hostname trim_space
  on_hostname onion (ok text) a = set_hostname onion (trim_space text) a
  on_hostname onion (err e) a = (err "updating status", a)
  on_hostname onion panic a = (panic, a)

  unfoldable pub update_onion_service_status : OnionService → Action
  unfolding on_hostname
  update_onion_service_status onion a = on_hostname onion (read_file os hostname_path a.disk).0 a

  -- Reload, where the daemon is to be reloaded: none if it panics.
  unfoldable pub reloads : Bool → Daemon → Option Daemon
  reloads reload d = if reload then tor_reload d else some d

  unfoldable pub after_reload : OnionService → Option Daemon → Action
  unfolding update_onion_service_status
  after_reload onion (some d) a = update_onion_service_status onion (record a { daemon = d })
  after_reload onion none a = (panic, a)

  unfoldable pub on_prepared : OnionService → Result String Bool × Disk → Action
  unfolding reloads after_reload
  on_prepared onion (ok reload, d) a =
      after_reload onion (reloads reload a.daemon) (record a { disk = d })
  on_prepared onion (err e, d) a = (err e, record a { disk = d })
  on_prepared onion (panic, d) a = (panic, record a { disk = d })

  unfoldable pub sync_onion_service : OnionService → Action
  unfolding on_prepared prepare
  sync_onion_service onion a = on_prepared onion (prepare os onion a.disk) a

  -- The store of the informer holds objects; `parse` is parseOnionService.
  module _ {Stored : Type 0} (parse : Stored → Result String OnionService) where
    unfoldable pub on_parsed : Result String OnionService → Action
    unfolding sync_onion_service
    on_parsed (ok onion) a = sync_onion_service onion a
    on_parsed (err e) a = (err "parsing onion service", a)
    on_parsed panic a = (panic, a)

    unfoldable pub sync : Result String (Option Stored) → Action
    unfolding on_parsed
    sync (ok (some object)) a = on_parsed (parse object) a
    sync (ok none) a = (ok tt, a)
    sync (err e) a = (err "fetching object from store", a)
    sync panic a = (panic, a)
