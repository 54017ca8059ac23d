-- ===== src/Controllers/OnionService/Clients.antt =====
-- controllers/tor/onionservice_secret_authorizedclients.go
use Prim.Native.String.{len, ◌++◌ as ◌<>◌}
use tor_controller.Base.{
  ℕ, ◌+◌, String, true, none, some, Option, List, [], ◌∷◌, ltb, if◌then◌else◌,
}
use tor_controller.Base.Exec.{Result, ok, err, panic, Exec, pure, crash, attempt, ◌>>=◌}
use tor_controller.Base.GoMap.{GoMap, lookup, insert}
use tor_controller.Kube.Types.{NamespacedName, Secret}
use tor_controller.Kube.Client.{Kube, secret}
use tor_controller.Apis.Types.{OnionService, SecretReference}
use tor_controller.Apis.Format.{decimal}
use tor_controller.Apis.OnionServiceUtil.{authorized_clients_secret_name}
use tor_controller.Controllers.Ensure.{Plan, Done, named, wrapped, on_found, if_controlled}
use tor_controller.Controllers.Objects.{owned_meta}

-- The key made of a public key: "descriptor:x25519:<publicKey>"
abbrev pub from_public_key : Option String → Option String
from_public_key none = none
from_public_key (some key) = some ("descriptor:x25519:" <> key)

abbrev pub or_else : Option String → Option String → Option String
or_else none other = other
or_else (some key) other = some key

-- The key of a client in its secret: under the key that the reference names, or else under
-- "authKey", or else made of "publicKey".
unfoldable pub client_key : SecretReference → GoMap String → Option String
unfolding lookup
client_key ref contents =
    if ltb 0 (len ref.key)
    then lookup ref.key contents
    else or_else (lookup "authKey" contents) (from_public_key (lookup "publicKey" contents))

-- authorizedClients[fmt.Sprintf("client-%d.auth", idx)] = key
unfoldable pub add_client : ℕ → Option String → GoMap String → GoMap String
unfolding insert decimal
add_client i none clients = clients
add_client i (some key) clients = insert ("client-" <> (decimal i <> ".auth")) key clients

module _ (K : Kube) (onion : OnionService) where
  abbrev pub in_namespace : String → NamespacedName
  in_namespace name = record { name = name; namespace = onion.object_meta.namespace }

  -- One turn of the loop; a secret that cannot be read is skipped.
  unfoldable pub on_client :
      SecretReference
      → ℕ
      → GoMap String
      → (GoMap String → Exec K.State K.Error (GoMap String))
      → Result K.Error Secret
      → Exec K.State K.Error (GoMap String)
  unfolding client_key add_client
  on_client ref i clients rest (ok s) = rest (add_client i (client_key ref s.contents) clients)
  on_client ref i clients rest (err e) = rest clients
  on_client ref i clients rest panic = crash

  unfoldable pub authorized_clients :
      ℕ → List SecretReference → GoMap String → Exec K.State K.Error (GoMap String)
  unfolding on_client
  authorized_clients i [] clients = pure clients
  authorized_clients i (ref ∷ refs) clients =
      attempt (K.get secret (in_namespace ref.name))
      >>= on_client ref i clients (authorized_clients (i + 1) refs)

  unfoldable pub clients_secret : GoMap String → Secret
  clients_secret clients = record {
    object_meta =
        owned_meta K onion.object_meta "OnionService" (authorized_clients_secret_name onion) none;
    type = "tor.k8s.torproject.org/authorized-clients-v3";
    contents = clients;
  }

  -- The secret is only created: `equal` and `fail_update` are not used.
  abbrev pub clients_plan : GoMap String → Plan K secret
  clients_plan clients = record {
    desired = clients_secret clients;
    may_create = true;
    equal = λ _ _. true;
    fail_get = wrapped K "failed to get secret";
    fail_create = wrapped K "failed to create secret";
    fail_update = λ _. none;
  }

  unfoldable pub build_clients_secret : Result K.Error Secret → Done K
  unfolding authorized_clients clients_secret on_found if_controlled
  build_clients_secret found = do
    clients ← authorized_clients 0 onion.spec.authorized_clients []
    on_found K onion.object_meta secret (clients_plan clients)
        (if_controlled K onion.object_meta secret (clients_plan clients) (λ _ _. pure tt)) found

  unfoldable pub reconcile_secret_authorized_clients : Done K
  unfolding build_clients_secret
  reconcile_secret_authorized_clients = named K (authorized_clients_secret_name onion) (
      attempt (K.get secret (in_namespace (authorized_clients_secret_name onion)))
      >>= build_clients_secret)
