-- ===== src/Controllers/OnionService/Secret.antt =====
-- controllers/tor/onionservice_secret.go, and GenerateOnionV3 of controllers/tor/util.go. The
-- library makes the pair of keys; bytes are texts.
use Prim.Native.String.{◌++◌ as ◌<>◌}
use tor_controller.Base.{String, true, none, [], ◌∷◌, if◌then◌else◌}
use tor_controller.Base.Exec.{Result, ok, err, panic, pure, crash, attempt, return_error, ◌>>=◌}
use tor_controller.Kube.Types.{Secret}
use tor_controller.Kube.Client.{Kube, secret}
use tor_controller.Apis.Types.{OnionService}
use tor_controller.Apis.OnionServiceUtil.{secret_name}
use tor_controller.Controllers.Ensure.{Plan, Done, named, wrapped, on_found, if_controlled}
use tor_controller.Controllers.Objects.{owned_meta}

pub record OnionV3 : Type 0 where
  pub onion_address : String
  pub public_key : String
  pub private_key : String
  pub private_key_file : String
  pub public_key_file : String

-- Three zero bytes end the header of a key file.
abbrev pub key_file : String → String → String
key_file header key = header <> ("\0\0\0" <> key)

module _ (K : Kube) where
  unfoldable pub generate_onion_v3_from_keys : String → String → OnionV3
  generate_onion_v3_from_keys public_key private_key = record {
    onion_address = K.onion_service_id public_key <> ".onion";
    public_key = public_key;
    private_key = private_key;
    private_key_file = key_file "== ed25519v1-secret: type0 ==" private_key;
    public_key_file = key_file "== ed25519v1-public: type0 ==" public_key;
  }

  unfoldable pub onion_secret : OnionService → OnionV3 → Secret
  onion_secret onion keys = record {
    object_meta = owned_meta K onion.object_meta "OnionService" (secret_name onion) none;
    type = "tor.k8s.torproject.org/onion-v3";
    contents =
        ("onionAddress", keys.onion_address)
        ∷ ("privateKey", keys.private_key)
        ∷ ("privateKeyFile", keys.private_key_file)
        ∷ ("publicKey", keys.public_key)
        ∷ ("publicKeyFile", keys.public_key_file)
        ∷ [];
  }

  -- The secret is only created: `equal` and `fail_update` are not used.
  abbrev pub secret_plan : OnionService → OnionV3 → Plan K secret
  secret_plan onion keys = record {
    desired = onion_secret onion keys;
    may_create = true;
    equal = λ _ _. true;
    fail_get = wrapped K "failed to get secret";
    fail_create = wrapped K "failed to create secret";
    fail_update = λ _. none;
  }

  -- Without keys the new secret is nil, and the client fails on it.
  unfoldable pub without_keys : Result K.Error Secret → Done K
  without_keys (ok s) = pure tt
  without_keys (err e) =
      if K.is_not_found e then crash else return_error (wrapped K "failed to get secret" e)
  without_keys panic = crash

  -- torOnionServiceSecret makes keys whether or not the secret is needed.
  unfoldable pub on_keys :
      OnionService → Result K.Error Secret → Result K.Error (String × String) → Done K
  unfolding generate_onion_v3_from_keys onion_secret without_keys on_found if_controlled
  on_keys onion found (ok (public_key, private_key)) =
      let keys = generate_onion_v3_from_keys public_key private_key in
      on_found K onion.object_meta secret (secret_plan onion keys)
        (if_controlled K onion.object_meta secret (secret_plan onion keys) (λ _ _. pure tt)) found
  on_keys onion found (err e) = without_keys found
  on_keys onion found panic = crash

  unfoldable pub reconcile_secret : OnionService → Done K
  unfolding on_keys
  reconcile_secret onion = named K (secret_name onion) (do
    found ← attempt (
        K.get secret (record { name = secret_name onion; namespace = onion.object_meta.namespace }))
    keys ← attempt K.generate_key
    on_keys onion found keys)
