-- ===== src/Main.antt =====
-- main.go, and SetupWithManager of the three reconcilers: controllers/tor/tor_controller.go, onionservice_controller.go
-- and onionbalancedservice_controller.go
pub mod Chosen
pub mod Serves
use tor_controller.Base.{ℕ, String, Bool, true, false, ◌&&◌, if◌then◌else◌, str_eq}
use tor_controller.Base.Exec.{
  Result, ok, err, panic, Exec, pure, raise, crash, attempt, ◌>>=◌, ◌>>◌,
}
use tor_controller.Kube.Client.{Kind, tor, onion_service, onion_balanced_service}
use tor_controller.Apis.Types.{ProjectConfig}

-- The fields of ctrl.Options that main reads or writes; the rest is one text.
pub record Options : Type 0 where
  pub leader_election : Bool
  pub namespace : String
  pub rest : String

pub record Flags : Type 0 where
  pub config_file : String
  pub disable_leader_election : Bool

-- How the process ends: os.Exit with a status.
pub data Exit : Type 0 where
  exit : ℕ → Exit

-- predicate.GenerationChangedPredicate{}
pub data EventFilter : Type 0 where
  generation_changed : EventFilter

-- What is called of controller-runtime.
pub record Ctrl : Type 1 where
  pub State : Type 0
  pub Error : Type 0
  pub RestConfig : Type 0
  pub Manager : Type 0
  pub wrap : Error → String → Error
  -- options.AndFrom(ctrl.ConfigFile().AtPath(path).OfKind(&config))
  pub and_from : String → Options → Exec State Error (Options × ProjectConfig)
  -- ctrl.GetConfigOrDie()
  pub get_config : Exec State Exit RestConfig
  pub new_manager : RestConfig → Options → Exec State Error Manager
  -- NewControllerManagedBy(manager).For(kind).WithEventFilter(filter).Complete(reconciler)
  pub complete : Manager → Kind → EventFilter → ProjectConfig → Exec State Error (Unit {0})
  pub add_healthz_check : Manager → String → Exec State Error (Unit {0})
  pub add_readyz_check : Manager → String → Exec State Error (Unit {0})
  pub start : Manager → Exec State Error (Unit {0})

-- ctrl.Options{Scheme: scheme} and configv2.ProjectConfig{}
abbrev pub no_options : Options
no_options = record { leader_election = false; namespace = ""; rest = "" }

abbrev pub no_config : ProjectConfig
no_config = record {
  namespace = "";
  tor_daemon_image = "";
  tor_daemon_manager_image = "";
  tor_onionbalance_manager_image = "";
}

unfoldable pub without_leader_election : Flags → Options → Options
without_leader_election flags options =
    if flags.disable_leader_election && options.leader_election
    then record options { leader_election = false }
    else options

unfoldable pub in_namespace : ProjectConfig → Options → Options
in_namespace config options =
    if str_eq config.namespace "" then options else record options { namespace = config.namespace }

module _ (C : Ctrl) where
  abbrev pub Process : Type 0 → Type 0
  Process A = Exec C.State Exit A

  abbrev pub exiting : {A : Type 0} → Result C.Error A → Result Exit A
  exiting (ok a) = ok a
  exiting (err e) = err (exit 1)
  exiting panic = panic

  -- if err != nil { os.Exit(1) }
  unfoldable pub or_exit : {A : Type 0} → Exec C.State C.Error A → Process A
  or_exit m s = (exiting (m s).0, (m s).1)

  -- The message of the failure of a kind's controller.
  abbrev pub failed_setup : Kind → String
  failed_setup onion_service = "unable to create OnionService controller"
  failed_setup onion_balanced_service = "unable to create OnionBalancedService controller"
  failed_setup k = "unable to create controller"

  unfoldable pub on_complete : Kind → Result C.Error (Unit {0}) → Exec C.State C.Error (Unit {0})
  on_complete k (ok a) = pure tt
  on_complete k (err e) = raise (C.wrap e (failed_setup k))
  on_complete k panic = crash

  unfoldable pub setup_with_manager :
      C.Manager → Kind → ProjectConfig → Exec C.State C.Error (Unit {0})
  unfolding on_complete
  setup_with_manager manager k config =
      attempt (C.complete manager k generation_changed config) >>= on_complete k

  unfoldable pub load : Flags → Process (Options × ProjectConfig)
  unfolding or_exit
  load flags =
      if str_eq flags.config_file ""
      then pure (no_options, no_config)
      else or_exit (C.and_from flags.config_file no_options)

  -- The three controllers, the two checks, and the manager's own run.
  unfoldable pub serve : C.Manager → ProjectConfig → Process (Unit {0})
  unfolding or_exit setup_with_manager
  serve manager config = do
    or_exit (setup_with_manager manager onion_service config)
    or_exit (setup_with_manager manager onion_balanced_service config)
    or_exit (setup_with_manager manager tor config)
    or_exit (C.add_healthz_check manager "healthz")
    or_exit (C.add_readyz_check manager "readyz")
    or_exit (C.start manager)

  unfoldable pub main : Flags → Process (Unit {0})
  unfolding load without_leader_election in_namespace serve
  main flags = do
    loaded ← load flags
    rest ← C.get_config
    manager ←
        or_exit
          (C.new_manager rest (in_namespace loaded.1 (without_leader_election flags loaded.0)))
    serve manager loaded.1
