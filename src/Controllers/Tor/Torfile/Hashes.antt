-- ===== src/Controllers/Tor/Torfile/Hashes.antt =====
-- Building the config map draws random salts and does nothing else to the world.
use tor_controller.Base.{ℕ, String, ◌≡◌, refl, ◌∙◌, none, some, Option, List, [], ◌∷◌}
use tor_controller.Kube.Client.{Kube, config_map, key_of, ServerLaws}
use tor_controller.Apis.Types.{Tor}
use tor_controller.Apis.TorUtil.{config_map_name}
use tor_controller.Controllers.HashPassword.{do_hash_password}
use tor_controller.Controllers.Tor.Torfile.{kept, hash_passwords, tor_config_map}

module _ (K : Kube) (P : K.State → Type 0)
    (read : (n : ℕ) (s : K.State) → P s → P (K.read_random n s).1) where
  kept-keeps :
      (rest : K.State → List String × K.State)
      → ((t : K.State) → P t → P (rest t).1)
      → (r : Option String × K.State) → P r.1
      → P (kept K r rest).1
  kept-keeps rest k (none, t) q = k t q
  kept-keeps rest k (some hash, t) q = k t q

  hash_passwords-keeps :
      (secrets : List String) (s : K.State) → P s → P (hash_passwords K secrets s).1
  unfolding hash_passwords do_hash_password
  hash_passwords-keeps [] s h = h
  hash_passwords-keeps (x ∷ xs) s h =
      kept-keeps (hash_passwords K xs) (hash_passwords-keeps xs) (do_hash_password K x s)
        (read 8 s h)

  pub tor_config_map-keeps : (tor : Tor) (s : K.State) → P s → P (tor_config_map K tor s).1
  unfolding tor_config_map
  tor_config_map-keeps tor s h = hash_passwords-keeps tor.spec.control.secret s h

-- The cluster is as it was.
pub contents-tor_config_map :
    {K : Kube} (L : ServerLaws K) (tor : Tor) (s : K.State)
    → L.contents (tor_config_map K tor s).1 ≡ L.contents s
contents-tor_config_map {K} L tor s =
    tor_config_map-keeps K (λ t. L.contents t ≡ L.contents s) (λ n t h. L.read_random-keeps n t ∙ h)
      tor s refl

pub key-tor_config_map :
    (K : Kube) (tor : Tor) (s : K.State)
    → key_of config_map (tor_config_map K tor s).0
      ≡ record { name = config_map_name tor; namespace = tor.object_meta.namespace }
unfolding tor_config_map
key-tor_config_map K tor s = refl
