-- ===== src/Controllers/Tor/Torfile.antt =====
-- controllers/tor/tor_configmap.go: the torfile of a Tor resource, with the template written out, and
-- its config map.
pub mod Hashes
use Prim.Native.String.{◌++◌ as ◌<>◌}
use tor_controller.Base.{
  ℕ, String, Bool, true, false, none, some, Option, List, [], ◌∷◌, if◌then◌else◌, str_eq, not,
}
use tor_controller.Base.Exec.{Result, pure, run, attempt, ◌>>=◌}
use tor_controller.Kube.Types.{ConfigMap}
use tor_controller.Kube.Client.{Kube, config_map}
use tor_controller.Apis.Types.{Tor, TorSpec, TorGenericPortWithFlagSpec, KeySelector}
use tor_controller.Apis.Format.{decimal}
use tor_controller.Apis.TorUtil.{config_map_name}
use tor_controller.Controllers.HashPassword.{do_hash_password}
use tor_controller.Controllers.Ensure.{Plan, Done, named, wrapped, on_found, if_controlled}
use tor_controller.Controllers.Objects.{owned_meta}

-- strings.Join
unfoldable pub join : List String → String → String
join [] sep = ""
join (x ∷ []) sep = x
join (x ∷ y ∷ xs) sep = x <> (sep <> join (y ∷ xs) sep)

unfoldable pub concat : List String → String
concat [] = ""
concat (x ∷ xs) = x <> concat xs

abbrev pub when : Bool → String → String
when b text = if b then text else ""

-- One line for each address: {{- range $idx, $addr := .Address }}
unfoldable pub port_lines : String → TorGenericPortWithFlagSpec → List String → String
unfolding join decimal
port_lines option p [] = ""
port_lines option p (addr ∷ rest) =
    ("\n+" <> (option <> (" " <> (addr <> (":" <> (decimal p.port <> (" " <> join p.flags ",")))))))
    <> port_lines option p rest

-- A block under the test of `Enable`, with the lines that follow those of the addresses.
unfoldable pub port_block : String → String → TorGenericPortWithFlagSpec → String → String
unfolding port_lines
port_block title option p more =
    when p.enable (("\n# " <> title) <> (port_lines option p p.address <> more))

unfoldable pub password_lines : List String → String
password_lines [] = ""
password_lines (hash ∷ rest) = ("\n+HashedControlPassword " <> hash) <> password_lines rest

abbrev pub is_empty : {A : Type 0} → List A → Bool
is_empty [] = true
is_empty (x ∷ xs) = false

-- torConfigFormat, executed on a Tor and its hashed passwords.
unfoldable pub tor_config : Tor → List String → String
unfolding concat port_block password_lines
tor_config tor hashes =
    let s = tor.spec in
    concat (
      ("# Config automatically generated\n# "
        <> (tor.object_meta.namespace
            <> ("/" <> (tor.object_meta.name <> "\nDataDirectory /var/lib/tor/data"))))
      ∷ port_block "Client:DNS" "DNSPort" s.client.dns ""
      ∷ port_block "Client:NATD" "NATDPort" s.client.natd ""
      ∷ port_block "Client:HTTPTunnel" "HTTPTunnelPort" s.client.http_tunnel ""
      ∷ port_block "Client:Trans" "TransPort" s.client.trans
          ("\n+TransProxyType " <> s.client.trans_proxy_type)
      ∷ port_block "Client:Socks" "SocksPort" s.client.socks
          ("\n+SocksPolicy " <> join s.client.socks.policy ",")
      ∷ port_block "Control" "ControlPort" s.control.with_flag (password_lines hashes)
      ∷ port_block "Metrics" "MetricsPort" s.metrics
          ("\n+MetricsPortPolicy " <> join s.metrics.policy ",")
      ∷ when (not (str_eq s.config "")) ("\n# Tor Custom config\n" <> s.config)
      ∷ when (not (is_empty s.config_map_key_ref))
          "\n# Include Custom Configs mounted by ConfigMapKeyRef\n%include /config/*/*.conf"
      ∷ "\n"
      ∷ [])

module _ (K : Kube) where
  abbrev pub kept :
      Option String × K.State → (K.State → List String × K.State) → List String × K.State
  kept (none, s) rest = rest s
  kept (some hash, s) rest = let (hashes, s') = rest s in (hash ∷ hashes, s')

  -- The loop over the secrets: a password that cannot be hashed is left out.
  unfoldable pub hash_passwords : List String → K.State → List String × K.State
  hash_passwords [] s = ([], s)
  hash_passwords (secret ∷ secrets) s = kept (do_hash_password K secret s) (hash_passwords secrets)

  unfoldable pub get_tor_control_hashed_passwords : Tor → K.State → List String × K.State
  unfolding hash_passwords
  get_tor_control_hashed_passwords tor = hash_passwords tor.spec.control.secret

  -- The template cannot fail on a Tor, so the error text of torConfigFile is not reached.
  unfoldable pub tor_config_file : Tor → K.State → String × K.State
  unfolding get_tor_control_hashed_passwords tor_config
  tor_config_file tor s =
      let (hashes, s') = get_tor_control_hashed_passwords tor s in (tor_config tor hashes, s')

  unfoldable pub tor_config_map : Tor → K.State → ConfigMap × K.State
  unfolding tor_config_file
  tor_config_map tor s =
      let (torfile, s') = tor_config_file tor s in
      (
        record {
          object_meta = owned_meta K tor.object_meta "Tor" (config_map_name tor) none;
          contents = ("torfile", torfile) ∷ [];
        },
        s',
      )

  -- The map is only created: no update follows, so `equal` and `fail_update` are not used.
  abbrev pub config_map_plan : ConfigMap → Plan K config_map
  config_map_plan desired = record {
    desired = desired;
    may_create = true;
    equal = λ _ _. true;
    fail_get = wrapped K "failed to get configmap %s/%s";
    fail_create = wrapped K "failed to create configmap %s/%s";
    fail_update = λ _. none;
  }

  -- What follows `Get`: the map is built, whether it is needed or not.
  unfoldable pub build_config_map : Tor → Result K.Error ConfigMap → Done K
  unfolding tor_config_map on_found if_controlled
  build_config_map tor found = do
    desired ← run (tor_config_map tor)
    on_found K tor.object_meta config_map (config_map_plan desired)
        (if_controlled K tor.object_meta config_map (config_map_plan desired) (λ _ _. pure tt))
        found

  unfoldable pub reconcile_config_map : Tor → Done K
  unfolding build_config_map
  reconcile_config_map tor = named K (config_map_name tor) (
      attempt (
        K.get config_map
          (record { name = config_map_name tor; namespace = tor.object_meta.namespace }))
      >>= build_config_map tor)
