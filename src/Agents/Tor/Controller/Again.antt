-- ===== src/Agents/Tor/Controller/Again.antt =====
-- What the tor agent's sync leaves for the next one.
use tor_controller.Base.{
  ◌≡◌, refl, sym, subst, String, Bool, true, false, Option, none, some, if◌then◌else◌, str_eq,
}
use tor_controller.Base.Exec.{Result, ok, err, panic}
use tor_controller.Base.Disk.{Disk, Os, IoError, read_file}
use tor_controller.Kube.Client.{Kube, onion_service}
use tor_controller.Apis.Types.{OnionService}
use tor_controller.Agents.Daemon.{Daemon}
use tor_controller.Agents.Tor.Text.{trim_space}
use tor_controller.Agents.Tor.Controller.Ready.{Ready, prepare-Ready}
use tor_controller.Agents.Tor.Controller.Quiet.{prepare-quiet}
use tor_controller.Agents.Tor.Controller.{
  Agent, sent, set_hostname, on_hostname, update_onion_service_status, reloads, after_reload,
  on_prepared, prepare, sync_onion_service, hostname_path,
}

module _ (K : Kube) (os : Os) (onion : OnionService) where
  -- The report of the host name touches neither the disk nor the daemon.
  abbrev SameHost : Agent K → Agent K → Type 0
  SameHost a b = (b.disk ≡ a.disk) × (b.daemon ≡ a.daemon)

  sent-SameHost :
      (r : Result K.Error OnionService) (c : K.State) (a : Agent K)
      → SameHost a (sent K os (r, c) a).1
  sent-SameHost (ok o) c a = (refl, refl)
  sent-SameHost (err e) c a = (refl, refl)
  sent-SameHost panic c a = (refl, refl)

  choice :
      (b : Bool) (x y : Result String (Unit {0}) × Agent K) (a : Agent K)
      → SameHost a x.1
      → SameHost a y.1
      → SameHost a (if b then x else y).1
  choice true x y a h k = h
  choice false x y a h k = k

  on_hostname-SameHost :
      (r : Result IoError String) (a : Agent K) → SameHost a (on_hostname K os onion r a).1
  unfolding on_hostname set_hostname
  on_hostname-SameHost (ok text) a =
      let named = record onion { status = record onion.status { hostname = trim_space text } } in
      let answer = K.update_status onion_service named a.cluster in
      choice (str_eq (trim_space text) onion.status.hostname) (ok tt, a) (sent K os answer a) a
        (refl, refl) (sent-SameHost answer.0 answer.1 a)
  on_hostname-SameHost (err e) a = (refl, refl)
  on_hostname-SameHost panic a = (refl, refl)

  status-SameHost : (a : Agent K) → SameHost a (update_onion_service_status K os onion a).1
  unfolding update_onion_service_status
  status-SameHost a = on_hostname-SameHost (read_file os hostname_path a.disk).0 a

  prepared_ok :
      (r : Result String Bool) (d : Disk) (a : Agent K)
      → (on_prepared K os onion (r, d) a).0 ≡ ok tt
      → (b : Bool) × (r ≡ ok b)
  unfolding on_prepared
  prepared_ok (ok b) d a h = (b, refl)
  prepared_ok (err e) d a h = absurd (cc)
  prepared_ok panic d a h = absurd (cc)

  after_reload_disk :
      (r : Option Daemon) (a : Agent K) → (after_reload K os onion r a).1.disk ≡ a.disk
  unfolding after_reload
  after_reload_disk (some d) a = (status-SameHost (record a { daemon = d })).0
  after_reload_disk none a = refl

  prepared_disk :
      (r : Result String Bool) (d : Disk) (a : Agent K)
      → (on_prepared K os onion (r, d) a).1.disk ≡ d
  unfolding on_prepared
  prepared_disk (ok b) d a = after_reload_disk (reloads K os b a.daemon) (record a { disk = d })
  prepared_disk (err e) d a = refl
  prepared_disk panic d a = refl

  not_reloaded : (b : Bool) (x : Daemon) → b ≡ false → reloads K os b x ≡ some x
  unfolding reloads
  not_reloaded true x z = absurd (cc)
  not_reloaded false x z = refl

  after_reload_daemon :
      (r : Option Daemon) (x : Daemon) (a : Agent K)
      → r ≡ some x
      → (after_reload K os onion r a).1.daemon ≡ x
  unfolding after_reload
  after_reload_daemon r x a h = rw h ((status-SameHost (record a { daemon = x })).1)

  prepared_daemon :
      (r : Result String Bool) (d : Disk) (a : Agent K)
      → ((b : Bool) → r ≡ ok b → b ≡ false)
      → (on_prepared K os onion (r, d) a).1.daemon ≡ a.daemon
  unfolding on_prepared
  prepared_daemon (ok b) d a k =
      after_reload_daemon (reloads K os b a.daemon) a.daemon (record a { disk = d })
        (not_reloaded b a.daemon (k b refl))
  prepared_daemon (err e) d a k = refl
  prepared_daemon panic d a k = refl

  -- A sync that ends without an error leaves the configuration of the OnionService in the torfile,
  -- and, if it has a master, the master's address in its file, whatever the disk held before.
  pub sync_onion_service-Ready :
      (a : Agent K)
      → (sync_onion_service K os onion a).0 ≡ ok tt
      → Ready onion (sync_onion_service K os onion a).1.disk
  unfolding sync_onion_service
  sync_onion_service-Ready a h =
      let (b, e) = prepared_ok (prepare os onion a.disk).0 (prepare os onion a.disk).1 a h in
      subst (Ready onion)
        (sym (prepared_disk (prepare os onion a.disk).0 (prepare os onion a.disk).1 a))
        ((prepare-Ready onion os).at a.disk b tt e)

  -- Where the files hold the configuration, a sync leaves the daemon alone, however it ends.
  pub sync_onion_service-quiet :
      (a : Agent K) → Ready onion a.disk → (sync_onion_service K os onion a).1.daemon ≡ a.daemon
  unfolding sync_onion_service
  sync_onion_service-quiet a h =
      prepared_daemon (prepare os onion a.disk).0 (prepare os onion a.disk).1 a
        (λ b e. (prepare-quiet onion os).at a.disk b h e)

  -- After a sync that ended without an error, another sync of the same OnionService leaves the
  -- daemon alone, however it ends.
  pub sync_onion_service-settles :
      (a : Agent K)
      → (sync_onion_service K os onion a).0 ≡ ok tt
      → (let b = (sync_onion_service K os onion a).1 in
          (sync_onion_service K os onion b).1.daemon ≡ b.daemon)
  sync_onion_service-settles a h =
      sync_onion_service-quiet (sync_onion_service K os onion a).1 (sync_onion_service-Ready a h)
