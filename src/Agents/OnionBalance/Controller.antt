-- ===== src/Agents/OnionBalance/Controller.antt =====
-- agents/onionbalance/local/controller.go: sync
pub mod Succeeds
pub mod Written
use tor_controller.Base.{◌≡◌, String, Bool, true, false, none, some, Option, if◌then◌else◌, str_eq}
use tor_controller.Base.Exec.{
  Result, ok, err, panic, Exec, pure, raise, crash, attempt, ◌>>=◌, ◌>>◌, run,
}
use tor_controller.Base.GoMap.{GoMap}
use tor_controller.Apis.Types.{OnionBalancedService, OnionServiceStatus}
use tor_controller.Agents.OnionBalance.Config.{Config, config_for}

-- What the agent calls: the informer's store, the conversion of its objects, the YAML printer, the
-- order in which a map is ranged over, the file /run/onionbalance/config.yaml and the daemon.
pub record Machine : Type 1 where
  pub State : Type 0
  pub Error : Type 0
  pub Stored : Type 0
  pub wrap : Error → String → Error
  pub is_not_exist : Error → Bool
  pub get_by_key : String → State → Result Error (Option Stored)
  pub parse : Stored → Result Error OnionBalancedService
  pub range : State → GoMap OnionServiceStatus → GoMap OnionServiceStatus
  pub marshal : Config → Result Error String
  pub read_config : Exec State Error String
  pub write_config : String → Exec State Error (Unit {0})
  -- A call of Reload that returns: Agents.Daemon has where it waits or panics.
  pub reload : State → State
  pub ensure_running : State → State

-- The file system gives back what was written, and the daemon does not write the file.
pub record MachineLaws (M : Machine) : Type 0 where
  -- The text of the file, empty if there is none.
  pub content : M.State → String
  pub read-keeps : (s : M.State) → content (M.read_config s).1 ≡ content s
  pub read-found : (s : M.State) (text : String) → (M.read_config s).0 ≡ ok text → content s ≡ text
  pub read-missing :
      (s : M.State) (e : M.Error)
      → (M.read_config s).0 ≡ err e
      → M.is_not_exist e ≡ true
      → content s ≡ ""
  pub write-stores :
      (text : String) (s : M.State)
      → (M.write_config text s).0 ≡ ok tt
      → content (M.write_config text s).1 ≡ text
  pub reload-keeps : (s : M.State) → content (M.reload s) ≡ content s
  pub ensure_running-keeps : (s : M.State) → content (M.ensure_running s) ≡ content s

module _ (M : Machine) where
  abbrev pub Step : Type 0
  Step = Exec M.State M.Error (Unit {0})

  unfoldable pub on_write : Result M.Error (Unit {0}) → Step
  on_write (ok a) = run (λ s. (tt, M.reload s))
  on_write (err e) = raise (M.wrap e "writing config failed")
  on_write panic = crash

  -- The file is written only if its text differs; else the daemon is kept running.
  unfoldable pub save : String → String → Step
  unfolding on_write
  save torfile config =
      if str_eq torfile config
      then run (λ s. (tt, M.ensure_running s))
      else attempt (M.write_config config) >>= on_write

  -- A file that does not exist reads as an empty text.
  unfoldable pub on_read : String → Result M.Error String → Step
  unfolding save
  on_read config (ok torfile) = save torfile config
  on_read config (err e) =
      if M.is_not_exist e then save "" config else raise (M.wrap e "failed to read config file")
  on_read config panic = crash

  unfoldable pub on_config : Result M.Error String → Step
  unfolding on_read
  on_config (ok config) = attempt M.read_config >>= on_read config
  on_config (err e) = raise (M.wrap e "generating config failed")
  on_config panic = crash

  unfoldable pub onion_balance_config_for_service :
      M.State → OnionBalancedService → Result M.Error String
  unfolding config_for
  onion_balance_config_for_service s balanced =
      wrap_error (M.marshal (config_for (M.range s balanced.status.backends)))
    where
      wrap_error : Result M.Error String → Result M.Error String
      wrap_error (ok text) = ok text
      wrap_error (err e) = err (M.wrap e "Error while Marshaling. %v")
      wrap_error panic = panic

  unfoldable pub on_parsed : Result M.Error OnionBalancedService → Step
  unfolding on_config onion_balance_config_for_service
  on_parsed (ok balanced) s = on_config (onion_balance_config_for_service s balanced) s
  on_parsed (err e) s = raise (M.wrap e "error in parseonionBalancedService") s
  on_parsed panic s = crash s

  unfoldable pub on_stored : Result M.Error (Option M.Stored) → Step
  unfolding on_parsed
  on_stored (ok (some o)) = on_parsed (M.parse o)
  on_stored (ok none) = pure tt
  on_stored (err e) = raise (M.wrap e "fetching object with key %s from store failed")
  on_stored panic = crash

  unfoldable pub sync : String → Step
  unfolding on_stored
  sync key s = on_stored (M.get_by_key key s) s
