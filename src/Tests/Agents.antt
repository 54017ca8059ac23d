-- ===== src/Tests/Agents.antt =====
-- A sync of the onionbalance agent on a machine in memory.
use tor_controller.Agents.OnionBalance.Controller.Succeeds.{sync_succeeds}
use tor_controller.Base.{String, true, none, some, Option, ◌≡◌, refl, List, [], ◌∷◌}
use tor_controller.Base.Exec.{Result, ok, err, ◌>>=◌}
use tor_controller.Kube.Client.{onion_balanced_service}
use tor_controller.Kube.Full.{everything}
use tor_controller.Apis.Types.{OnionBalancedService}
use tor_controller.Agents.OnionBalance.Config.{Instance, BalancedService}
use tor_controller.Agents.OnionBalance.Controller.{
  Machine, MachineLaws, sync, onion_balance_config_for_service,
}
use tor_controller.Agents.OnionBalance.Controller.Written.{sync_writes}

-- The file, if there is one.
record Disk : Type 0 where
  file : Option String

abbrev text_of : Option String → String
text_of none = ""
text_of (some x) = x

abbrev read : Option String → Result String String
read none = err "no such file"
read (some x) = ok x

abbrev balanced : OnionBalancedService
balanced =
    record (everything onion_balanced_service (record { name = "hub"; namespace = "apps" })) {
      status = record {
        hostname = "master.onion";
        target_cluster_ip = "10.0.0.1";
        backends =
            ("hub-tor-obb-1", record { hostname = "one.onion"; target_cluster_ip = "" }) ∷ [];
      };
    }

abbrev first_address : List Instance → String
first_address [] = "none"
first_address (i ∷ is) = i.address

abbrev first_service : List BalancedService → String
first_service [] = "none"
first_service (s ∷ ss) = first_address s.instances

abbrev machine : Machine
machine = record {
  State = Disk;
  Error = String;
  Stored = OnionBalancedService;
  wrap = λ e t. t;
  is_not_exist = λ e. true;
  get_by_key = λ key s. ok (some balanced);
  parse = λ b. ok b;
  range = λ s m. m;
  marshal = λ c. ok (first_service c.services);
  read_config = λ s. (read s.file, s);
  write_config = λ x s. (ok tt, record { file = some x });
  reload = λ s. s;
  ensure_running = λ s. s;
}

found : (f : Option String) (x : String) → read f ≡ ok x → text_of f ≡ x
found none x h = absurd (cc)
found (some y) x h = cc

lost : (f : Option String) (e : String) → read f ≡ err e → text_of f ≡ ""
lost none e h = refl
lost (some y) e h = absurd (cc)

abbrev machine_laws : MachineLaws machine
machine_laws = record {
  content = λ s. text_of s.file;
  read-keeps = λ s. refl;
  read-found = λ s x h. found s.file x h;
  read-missing = λ s e h m. lost s.file e h;
  write-stores = λ x s h. refl;
  reload-keeps = λ s. refl;
  ensure_running-keeps = λ s. refl;
}

abbrev empty_disk : Disk
empty_disk = record { file = none }

sync_writes_example :
    onion_balance_config_for_service machine empty_disk balanced
    ≡ ok (text_of (sync machine "apps/hub" empty_disk).1.file)
unfolding sync ◌>>=◌
sync_writes_example =
    sync_writes machine_laws "apps/hub" empty_disk balanced balanced refl refl refl

sync_succeeds_example : (sync machine "apps/hub" empty_disk).0 ≡ ok tt
unfolding onion_balance_config_for_service
sync_succeeds_example =
    sync_succeeds machine (λ x s. refl) "apps/hub" empty_disk balanced balanced "one.onion" refl
      refl refl (λ e h. refl) (λ h. cc)
