-- ===== src/Tests/Main.antt =====
-- A run of main with a configuration file and without leader election.
use tor_controller.Base.{refl, String, true, ℕ, ◌+◌}
use tor_controller.Base.Exec.{ok, attempt, ◌>>=◌}
use tor_controller.Apis.Types.{ProjectConfig}
use tor_controller.Main.{Options, Flags, Ctrl, no_config, main}
use tor_controller.Main.Chosen.{Chosen}
use tor_controller.Main.Serves.{Goes, Row, Loads, served, main-serves}

-- Every call is counted and succeeds; a manager is its options.
abbrev counted : Ctrl
counted = record {
  State = ℕ;
  Error = String;
  RestConfig = String;
  Manager = Options;
  wrap = λ e m. m;
  and_from = λ path options s. (
    ok (record options { leader_election = true }, record no_config { namespace = "tor" }),
    s + 1,
  );
  get_config = λ s. (ok "kubeconfig", s + 1);
  new_manager = λ rest options s. (ok options, s + 1);
  complete = λ manager k filter config s. (ok tt, s + 1);
  add_healthz_check = λ manager name s. (ok tt, s + 1);
  add_readyz_check = λ manager name s. (ok tt, s + 1);
  start = λ manager s. (ok tt, s + 1);
}

abbrev flags : Flags
flags = record { config_file = "config.yaml"; disable_leader_election = true }

main-serves_example :
    (loaded : Options × ProjectConfig) × (rest : String) × (options : Options) × (manager : Options)
    × (s1 : ℕ) × (s2 : ℕ) × (s3 : ℕ) × Loads counted flags 0 loaded s1
    × Goes counted.get_config s1 rest s2
    × Chosen flags loaded options
    × Goes (counted.new_manager rest options) s2 manager s3
    × Row s3 (served counted manager loaded.1) (main counted flags 0).1
unfolding main ◌>>=◌ attempt
main-serves_example = main-serves counted flags 0 refl
