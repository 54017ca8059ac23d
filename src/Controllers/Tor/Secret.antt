-- ===== src/Controllers/Tor/Secret.antt =====
-- controllers/tor/tor_secret.go: the secret with the control password, and the passwords that the
-- Tor's own references name.
use tor_controller.Base.{
  String, Bool, true, false, none, some, Option, List, [], ◌∷◌, ◌++◌, ◌&&◌, if◌then◌else◌, str_eq,
}
use tor_controller.Base.Exec.{Result, ok, err, panic, Exec, pure, crash, raise, attempt, ◌>>=◌}
use tor_controller.Base.GoMap.{GoMap, lookup}
use tor_controller.Kube.Types.{Secret, NamespacedName}
use tor_controller.Kube.Client.{Kube, secret, GeneratorConfig}
use tor_controller.Apis.Types.{Tor, KeySelector}
use tor_controller.Apis.TorUtil.{secret_name}
use tor_controller.Controllers.Ensure.{wrapped}
use tor_controller.Controllers.Objects.{owned_meta}

abbrev pub password_config : GeneratorConfig
password_config = record {
  length = 16;
  include_symbols = false;
  include_numbers = true;
  include_lowercase_letters = true;
  include_uppercase_letters = true;
  exclude_similar_characters = true;
  exclude_ambiguous_characters = true;
}

-- tor.Spec.Control.Secret = append(tor.Spec.Control.Secret, …)
abbrev pub add_secrets : Tor → List String → Tor
add_secrets tor more = record tor {
  spec = record tor.spec {
    control = record tor.spec.control { secret = tor.spec.control.secret ++ more };
  };
}

abbrev pub listed : Option String → List String
listed none = []
listed (some password) = password ∷ []

abbrev pub values : GoMap String → List String
values [] = []
values ((k, v) ∷ m) = v ∷ values m

abbrev pub none_listed : {A : Type 0} → List A → Bool
none_listed [] = true
none_listed (x ∷ xs) = false

-- The generated password is used where the user gave none.
unfoldable pub with_generated : Secret → Tor → Tor
with_generated s tor =
    if none_listed tor.spec.control.secret && none_listed tor.spec.control.secret_ref
    then add_secrets tor (values s.contents)
    else tor

module _ (K : Kube) where
  -- *pwd: the pointer is nil if the generator failed.
  abbrev pub dereferenced : Option String × K.State → Result K.Error String × K.State
  dereferenced (none, s) = (panic, s)
  dereferenced (some password, s) = (ok password, s)

  unfoldable pub generate_random_password : Exec K.State K.Error String
  generate_random_password s = dereferenced (K.generate_password password_config s)

  unfoldable pub tor_secret : Tor → String → Secret
  tor_secret tor password = record {
    object_meta = owned_meta K tor.object_meta "Tor" (secret_name tor) none;
    type = "tor.k8s.torproject.org/control-password";
    contents = ("control", password) ∷ [];
  }

  -- `return err` of a function that has changed the Tor so far.
  unfoldable pub return_tor : Tor → Option K.Error → Exec K.State K.Error Tor
  return_tor tor none = pure tor
  return_tor tor (some e) = raise e

  abbrev pub in_namespace : Tor → String → NamespacedName
  in_namespace tor name = record { name = name; namespace = tor.object_meta.namespace }

  -- One reference of the loop: `rest` is the loop over the others.
  unfoldable pub on_reference :
      KeySelector
      → Tor
      → (Tor → Exec K.State K.Error Tor)
      → Result K.Error Secret
      → Exec K.State K.Error Tor
  unfolding lookup return_tor
  on_reference ref tor rest (ok s) = rest (add_secrets tor (listed (lookup ref.key s.contents)))
  on_reference ref tor rest (err e) = return_tor tor (wrapped K "failed to get secret %s" e)
  on_reference ref tor rest panic = crash

  -- The loop over the references.
  unfoldable pub add_references : List KeySelector → Secret → Tor → Exec K.State K.Error Tor
  unfolding on_reference with_generated
  add_references [] generated tor = pure (with_generated generated tor)
  add_references (ref ∷ refs) generated tor =
      attempt (K.get secret (in_namespace tor ref.name))
      >>= on_reference ref tor (add_references refs generated)

  unfoldable pub on_new_secret : Tor → Result K.Error Secret → Exec K.State K.Error Tor
  unfolding add_references
  on_new_secret tor (ok s) = add_references tor.spec.control.secret_ref s tor
  on_new_secret tor (err e) = return_tor tor (wrapped K "failed to create secret %#v" e)
  on_new_secret tor panic = crash

  unfoldable pub on_secret : Tor → Secret → Result K.Error Secret → Exec K.State K.Error Tor
  unfolding on_new_secret
  on_secret tor new (ok s) = add_references tor.spec.control.secret_ref s tor
  on_secret tor new (err e) =
      if K.is_not_found e
      then attempt (K.create secret new) >>= on_new_secret tor
      else return_tor tor (wrapped K "failed to get secret %s" e)
  on_secret tor new panic = crash

  -- The Tor comes back with the control passwords in its spec. Whether the secret is controlled by
  -- the Tor is only logged.
  unfoldable pub reconcile_control_secret : Tor → Exec K.State K.Error Tor
  unfolding generate_random_password tor_secret on_secret
  reconcile_control_secret tor = if str_eq (secret_name tor) "" then pure tor else do
    found ← attempt (K.get secret (in_namespace tor (secret_name tor)))
    password ← generate_random_password
    on_secret tor (tor_secret tor password) found
