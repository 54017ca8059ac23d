-- ===== src/Kube/Client.antt =====
-- The libraries that the controllers call and that are not part of this repository: the client of
-- controller-runtime, apimachinery's error tests and owner references, cockroachdb's `errors`, and
-- the key and password generators, with Go's `rand.Read` and `sha1.Sum`. They are the fields of `Kube`; the laws are what their
-- documentation states, and theorems name those they need.
use tor_controller.Base.{ℕ, String, Bool, true, false, Option, none, some, List, [], ◌∷◌, ◌≡◌, ◌≢◌}
use tor_controller.Base.Exec.{ok, err, Exec}
use tor_controller.Kube.Types.{
  NamespacedName, GroupVersionKind, OwnerReference, ObjectMeta, Service, Secret, ConfigMap,
  ServiceAccount, Role, RoleBinding, Deployment, ServiceMonitor,
}
use tor_controller.Apis.Types.{Tor, OnionService, OnionBalancedService}

pub data Kind : Type 0 where
  service_account role role_binding service secret config_map deployment service_monitor : Kind
  custom_resource_definition tor onion_service onion_balanced_service : Kind

abbrev pub Object : Kind → Type 0
Object service_account = ServiceAccount
Object role = Role
Object role_binding = RoleBinding
Object service = Service
Object secret = Secret
Object config_map = ConfigMap
Object deployment = Deployment
Object service_monitor = ServiceMonitor
Object custom_resource_definition = ObjectMeta
Object tor = Tor
Object onion_service = OnionService
Object onion_balanced_service = OnionBalancedService

abbrev pub meta : (k : Kind) → Object k → ObjectMeta
meta service_account o = o.object_meta
meta role o = o.object_meta
meta role_binding o = o.object_meta
meta service o = o.object_meta
meta secret o = o.object_meta
meta config_map o = o.object_meta
meta deployment o = o.object_meta
meta service_monitor o = o.object_meta
meta custom_resource_definition o = o
meta tor o = o.object_meta
meta onion_service o = o.object_meta
meta onion_balanced_service o = o.object_meta

abbrev pub key_of : (k : Kind) → Object k → NamespacedName
key_of k o = record { name = (meta k o).name; namespace = (meta k o).namespace }

-- The parts of `generator.Config`.
pub record GeneratorConfig : Type 0 where
  pub length : ℕ
  pub include_symbols : Bool
  pub include_numbers : Bool
  pub include_lowercase_letters : Bool
  pub include_uppercase_letters : Bool
  pub exclude_similar_characters : Bool
  pub exclude_ambiguous_characters : Bool

-- `create`, `update` and `update_status` return the object as the server answers it: the client
-- writes that answer into the object that it was given.
pub record Kube : Type 1 where
  pub State : Type 0
  pub Error : Type 0
  pub is_not_found : Error → Bool
  pub ignore_not_found : Option Error → Option Error
  pub wrap : Option Error → String → Option Error
  pub new_error : String → Error
  pub is_controlled_by : ObjectMeta → ObjectMeta → Bool
  pub new_controller_ref : ObjectMeta → GroupVersionKind → OwnerReference
  pub get : (k : Kind) → NamespacedName → Exec State Error (Object k)
  pub create : (k : Kind) → Object k → Exec State Error (Object k)
  pub update : (k : Kind) → Object k → Exec State Error (Object k)
  pub delete : (k : Kind) → Object k → Exec State Error (Unit {0})
  pub update_status : (k : Kind) → Object k → Exec State Error (Object k)
  pub list_onion_services : String → Exec State Error (List OnionService)
  pub generate_key : Exec State Error (String × String)
  pub onion_service_id : String → String
  pub generate_password : GeneratorConfig → State → Option String × State
  pub read_random : ℕ → State → Option (List ℕ) × State
  pub sha1 : List ℕ → List ℕ
  -- Whether the parts that the controllers compare with reflect.DeepEqual have nil slices and maps in the same places.
  pub same_nils : (k : Kind) → Object k → Object k → Bool

module _ (K : Kube) where
  -- cockroachdb's `errors.Wrap` returns nil for a nil error and an error for an error, and
  -- `IgnoreNotFound` returns nil for a not-found error and any other error as it is.
  pub record ErrorLaws : Type 0 where
    pub wrap-nil : (m : String) → K.wrap none m ≡ none
    pub wrap-some : (e : K.Error) (m : String) → K.wrap (some e) m ≢ none
    pub ignore-missing :
        (e : K.Error) → K.is_not_found e ≡ true → K.ignore_not_found (some e) ≡ none
    pub ignore-other :
        (e : K.Error) → K.is_not_found e ≡ false → K.ignore_not_found (some e) ≡ some e

  -- The owner of a controller reference controls what carries it.
  pub record OwnerLaws : Type 0 where
    pub controls_own :
        (m owner : ObjectMeta) (g : GroupVersionKind)
        → m.owner_references ≡ K.new_controller_ref owner g ∷ []
        → K.is_controlled_by m owner ≡ true

  -- The places of the cluster differ.
  abbrev pub Apart : Kind → NamespacedName → Kind → NamespacedName → Type 0
  Apart k n j m = ¬ ((k ≡ j) × (n ≡ m))

-- What the API server stores, and how the calls change it. No other client writes between the
-- calls of one reconciliation, and a client never answers with a panic.
pub record ServerLaws (K : Kube) : Type 0 where
  pub contents : K.State → (k : Kind) → NamespacedName → Option (Object k)
  pub stored-key :
      (s : K.State) (k : Kind) (n : NamespacedName) (o : Object k)
      → contents s k n ≡ some o
      → key_of k o ≡ n
  pub get-keeps :
      (k : Kind) (n : NamespacedName) (s : K.State) → contents (K.get k n s).1 ≡ contents s
  pub get-found :
      (k : Kind) (n : NamespacedName) (s : K.State) (o : Object k)
      → (K.get k n s).0 ≡ ok o
      → contents s k n ≡ some o
  pub get-missing :
      (k : Kind) (n : NamespacedName) (s : K.State) (e : K.Error)
      → (K.get k n s).0 ≡ err e
      → K.is_not_found e ≡ true
      → contents s k n ≡ none
  pub create-keeps :
      (k : Kind) (o : Object k) (s : K.State) (j : Kind) (m : NamespacedName) (x : Object j)
      → contents s j m ≡ some x
      → contents (K.create k o s).1 j m ≡ some x
  pub create-stored :
      (k : Kind) (o o' : Object k) (s : K.State)
      → (K.create k o s).0 ≡ ok o'
      → contents (K.create k o s).1 k (key_of k o) ≡ some o'
  pub create-key :
      (k : Kind) (o o' : Object k) (s : K.State)
      → (K.create k o s).0 ≡ ok o'
      → key_of k o' ≡ key_of k o
  pub update-apart :
      (k : Kind) (o : Object k) (s : K.State) (j : Kind) (m : NamespacedName)
      → Apart K k (key_of k o) j m
      → contents (K.update k o s).1 j m ≡ contents s j m
  pub update-present :
      (k : Kind) (o : Object k) (s : K.State) (j : Kind) (m : NamespacedName)
      → contents s j m ≢ none
      → contents (K.update k o s).1 j m ≢ none
  pub delete-apart :
      (k : Kind) (o : Object k) (s : K.State) (j : Kind) (m : NamespacedName)
      → Apart K k (key_of k o) j m
      → contents (K.delete k o s).1 j m ≡ contents s j m
  pub update_status-apart :
      (k : Kind) (o : Object k) (s : K.State) (j : Kind) (m : NamespacedName)
      → Apart K k (key_of k o) j m
      → contents (K.update_status k o s).1 j m ≡ contents s j m
  pub update_status-present :
      (k : Kind) (o : Object k) (s : K.State) (j : Kind) (m : NamespacedName)
      → contents s j m ≢ none
      → contents (K.update_status k o s).1 j m ≢ none
  pub list-keeps :
      (ns : String) (s : K.State) → contents (K.list_onion_services ns s).1 ≡ contents s
  pub generate_key-keeps : (s : K.State) → contents (K.generate_key s).1 ≡ contents s
  pub generate_password-keeps :
      (c : GeneratorConfig) (s : K.State) → contents (K.generate_password c s).1 ≡ contents s
  pub read_random-keeps : (n : ℕ) (s : K.State) → contents (K.read_random n s).1 ≡ contents s
