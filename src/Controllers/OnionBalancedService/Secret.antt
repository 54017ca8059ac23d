-- ===== src/Controllers/OnionBalancedService/Secret.antt =====
-- controllers/tor/onionbalancedservice_secret.go
use tor_controller.Base.{String, none, some, Option, [], ◌∷◌, if◌then◌else◌, str_eq}
use tor_controller.Base.Exec.{Result, ok, err, panic, Exec, pure, raise, crash, attempt, ◌>>=◌}
use tor_controller.Base.GoMap.{lookup}
use tor_controller.Kube.Types.{Secret}
use tor_controller.Kube.Client.{Kube, secret}
use tor_controller.Apis.Types.{OnionBalancedService}
use tor_controller.Apis.OnionBalancedServiceUtil.{secret_name}
use tor_controller.Controllers.Ensure.{wrapped}
use tor_controller.Controllers.Objects.{owned_meta}
use tor_controller.Controllers.OnionService.Secret.{OnionV3, generate_onion_v3_from_keys}

-- The text of a key that is missing is empty.
abbrev pub or_empty : Option String → String
or_empty none = ""
or_empty (some text) = text

-- onionBalancedService.Status.Hostname = string(secret.Data["onionAddress"])
unfoldable pub with_hostname : OnionBalancedService → Secret → OnionBalancedService
unfolding lookup
with_hostname balanced s = record balanced {
  status = record balanced.status { hostname = or_empty (lookup "onionAddress" s.contents) };
}

module _ (K : Kube) where
  unfoldable pub balance_secret : OnionBalancedService → OnionV3 → Secret
  balance_secret balanced keys = record {
    object_meta =
        owned_meta K balanced.object_meta "OnionBalancedService" (secret_name balanced) none;
    type = "tor.k8s.torproject.org/onion-v3";
    contents =
        ("onionAddress", keys.onion_address)
        ∷ ("privateKey", keys.private_key)
        ∷ ("privateKeyFile", keys.private_key_file)
        ∷ ("publicKey", keys.public_key)
        ∷ ("publicKeyFile", keys.public_key_file)
        ∷ [];
  }

  -- The new secret, nil without keys.
  unfoldable pub new_secret :
      OnionBalancedService → Result K.Error (String × String) → Option Secret
  unfolding generate_onion_v3_from_keys balance_secret
  new_secret balanced (ok (public_key, private_key)) =
      some (balance_secret balanced (generate_onion_v3_from_keys K public_key private_key))
  new_secret balanced (err e) = none
  new_secret balanced panic = none

  -- `return err` of a function that has changed the resource so far.
  unfoldable pub return_balanced :
      OnionBalancedService → Option K.Error → Exec K.State K.Error OnionBalancedService
  return_balanced balanced none = pure balanced
  return_balanced balanced (some e) = raise e

  unfoldable pub on_created_secret :
      OnionBalancedService → Result K.Error Secret → Exec K.State K.Error OnionBalancedService
  unfolding with_hostname return_balanced
  on_created_secret balanced (ok s) = pure (with_hostname balanced s)
  on_created_secret balanced (err e) =
      return_balanced balanced (wrapped K "failed to create secret" e)
  on_created_secret balanced panic = crash

  unfoldable pub create_secret :
      OnionBalancedService → Option Secret → Exec K.State K.Error OnionBalancedService
  unfolding on_created_secret
  create_secret balanced none = crash
  create_secret balanced (some s) = attempt (K.create secret s) >>= on_created_secret balanced

  unfoldable pub on_secret :
      OnionBalancedService
      → Option Secret
      → Result K.Error Secret
      → Exec K.State K.Error OnionBalancedService
  unfolding create_secret
  on_secret balanced new (ok s) = pure (with_hostname balanced s)
  on_secret balanced new (err e) =
      if K.is_not_found e
      then create_secret balanced new
      else return_balanced balanced (wrapped K "failed to get secret" e)
  on_secret balanced new panic = crash

  -- The resource comes back with the hostname in its status. Whether it controls the secret is only
  -- logged.
  unfoldable pub reconcile_secret : OnionBalancedService → Exec K.State K.Error OnionBalancedService
  unfolding new_secret on_secret
  reconcile_secret balanced = if str_eq (secret_name balanced) "" then pure balanced else do
    found ← attempt (
        K.get secret
          (record { name = secret_name balanced; namespace = balanced.object_meta.namespace }))
    keys ← attempt K.generate_key
    on_secret balanced (new_secret balanced keys) found
