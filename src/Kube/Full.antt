-- ===== src/Kube/Full.antt =====
-- A cluster in which every name of every kind has an object and in which nothing has an owner, for
-- runs that only read; an update of a status is answered with the status that was sent, and is not
-- kept.
use tor_controller.Base.{◌∷◌, String}
use tor_controller.Apis.Types.{ServiceRule}
use tor_controller.Base.{arith, str_eq, if◌then◌else◌}
use tor_controller.Kube.Memory.Client.{ok-same}
use tor_controller.Base.{false, Option, none, some, [], ◌≡◌, refl, sym, ap, ◌∙◌}
use mathlib.Core.Option.{some-injective}
use tor_controller.Base.Exec.{Result, ok, err}
use tor_controller.Kube.Types.{NamespacedName, ObjectMeta, PodSpec, ServicePort}
use tor_controller.Kube.Client.{
  Kind, Object, key_of, Kube, ErrorLaws, ServerLaws, service_account, role, role_binding, service,
  secret, config_map, deployment, service_monitor, custom_resource_definition, tor, onion_service,
  onion_balanced_service,
}
use tor_controller.Kube.Memory.{MemoryError, conflict, message}
use tor_controller.Kube.Memory.Client.{memory}
use tor_controller.Apis.Types.{Tor, TorGenericPortWithFlagSpec, OnionService, OnionServiceSpec}

abbrev pub at_place : NamespacedName → ObjectMeta
at_place n = record {
  name = n.name;
  namespace = n.namespace;
  uid = "u-1";
  resource_version = "1";
  server_fields = "";
  labels = none;
  owner_references = [];
}

abbrev pub no_port : TorGenericPortWithFlagSpec
no_port = record {
  generic = record { enable = false; port = 0; address = [] };
  flags = [];
  policy = [];
}

abbrev pub no_pod : PodSpec
no_pod = record { service_account_name = ""; volumes = []; containers = []; rest = "" }

abbrev pub example_tor : Tor
example_tor = record {
  object_meta = at_place (record { name = "relay"; namespace = "apps" });
  spec = record {
    replicas = 0;
    template = record {
      object_meta = at_place (record { name = ""; namespace = "" });
      spec = no_pod;
      resources = "";
    };
    client = record {
      dns = no_port;
      natd = no_port;
      socks = no_port;
      http_tunnel = no_port;
      trans = no_port;
      trans_proxy_type = "";
    };
    server = record { with_flag = no_port };
    control = record { with_flag = no_port; secret = []; secret_ref = [] };
    metrics = no_port;
    service_monitor = false;
    config = "";
    config_map_key_ref = [];
    extra_args = [];
  };
  status_config = "";
}

abbrev pub example_rule : ServiceRule
example_rule = record {
  port = record { name = "http"; number = 80 };
  backend_service = record { name = "web"; port = record { name = "http"; number = 8080 } };
}

-- A rule whose target service has the port.
abbrev pub served_rule : ServiceRule
served_rule = record example_rule {
  backend_service = record { name = "shop-web"; port = record { name = "http"; number = 8080 } };
}

abbrev pub example_onion_service_spec : OnionServiceSpec
example_onion_service_spec = record {
  rules = example_rule ∷ [];
  template = example_tor.spec.template;
  private_key_secret = record { name = ""; key = "" };
  authorized_clients = [];
  version = 3;
  master_onion_address = "";
  service_monitor = false;
  extra_config = "";
}

abbrev pub shop_port : ServicePort
shop_port = record { name = "http"; protocol = "TCP"; port = 8080; target_port = 8080 }

-- The object that stands at a name.
abbrev pub everything : (k : Kind) → NamespacedName → Object k
everything service_account n = record {
  object_meta = at_place n;
  secrets = [];
  image_pull_secrets = [];
  automount_service_account_token = none;
}
everything role n = record { object_meta = at_place n; rules = [] }
everything role_binding n = record {
  object_meta = at_place n;
  subjects = [];
  role_ref = record { kind = ""; name = "" };
}
everything service n = record {
  object_meta = at_place n;
  spec = record {
    selector = [];
    ports = if str_eq n.name "shop-web" then shop_port ∷ [] else [];
    cluster_ip = "10.0.0.1";
    rest = "";
  };
  status = "";
}
everything secret n = record { object_meta = at_place n; type = ""; contents = [] }
everything config_map n = record { object_meta = at_place n; contents = [] }
everything deployment n = record {
  object_meta = at_place n;
  spec = record {
    match_labels = [];
    replicas = none;
    template = record { object_meta = at_place n; spec = no_pod };
  };
  status = "";
}
everything service_monitor n = record {
  object_meta = at_place n;
  spec = record { match_labels = []; endpoints = []; match_names = [] };
}
everything custom_resource_definition n = at_place n
everything tor n = record example_tor { object_meta = at_place n }
everything onion_service n = record {
  object_meta = at_place n;
  spec = record example_onion_service_spec {
    rules = if str_eq n.name "shop" then served_rule ∷ [] else example_rule ∷ [];
  };
  status = record { hostname = ""; target_cluster_ip = "" };
}
everything onion_balanced_service n = record {
  kind = "OnionBalancedService";
  object_meta = at_place n;
  spec = record {
    backends = 1;
    private_key_secret = record { name = ""; key = "" };
    version = 3;
    service_monitor = false;
    template_spec = example_onion_service_spec;
    balancer_template = record {
      object_meta = at_place n;
      spec = no_pod;
      tor_resources = "";
      balancer_resources = "";
    };
  };
  status = record { hostname = ""; target_cluster_ip = ""; backends = [] };
}

-- An OnionService with a hostname.
abbrev pub first_backend : String → OnionService
first_backend namespace =
    record (everything onion_service (record { name = "shop-1"; namespace = namespace })) {
      status = record { hostname = "a.onion"; target_cluster_ip = "" };
    }

-- The object that stands at the name of another one, with the status of that one.
abbrev pub with_status_of : (k : Kind) → Object k → Object k
with_status_of tor o = record (everything tor (key_of tor o)) { status_config = o.status_config }
with_status_of onion_service o = record (everything onion_service (key_of onion_service o)) {
  status = o.status;
}
with_status_of onion_balanced_service o =
    record (everything onion_balanced_service (key_of onion_balanced_service o)) {
      status = o.status;
    }
with_status_of k o = o

abbrev pub full : Kube
full = record memory {
  State = Unit {0};
  is_controlled_by = λ m owner. false;
  get = λ k n s. (ok (everything k n), s);
  create = λ k o s. (err conflict, s);
  update = λ k o s. (ok o, s);
  delete = λ k o s. (err (message "refused"), s);
  update_status = λ k o s. (ok (with_status_of k o), s);
  list_onion_services = λ ns s. (ok (first_backend ns ∷ []), s);
  generate_key = λ s. (ok ("public", "private"), s);
  generate_password = λ c s. (some "password", s);
  read_random = λ n s. (none, s);
}

pub everything-key : (k : Kind) (n : NamespacedName) → key_of k (everything k n) ≡ n
everything-key service_account n = refl
everything-key role n = refl
everything-key role_binding n = refl
everything-key service n = refl
everything-key secret n = refl
everything-key config_map n = refl
everything-key deployment n = refl
everything-key service_monitor n = refl
everything-key custom_resource_definition n = refl
everything-key tor n = refl
everything-key onion_service n = refl
everything-key onion_balanced_service n = refl

pub full-stored :
    (k : Kind) (n : NamespacedName) (o : Object k)
    → ◌≡◌ {A = Result MemoryError (Object k)} (ok (everything k n)) (ok o)
    → ◌≡◌ {A = Option (Object k)} (some (everything k n)) (some o)
full-stored k n o h = ap some (ok-same (everything k n) o h)

pub full-ErrorLaws : ErrorLaws full
full-ErrorLaws = record {
  wrap-nil = λ m. refl;
  wrap-some = λ e m p. cc;
  ignore-missing = λ e h. ground arith;
  ignore-other = λ e h. ground arith;
}

unfoldable pub full-ServerLaws : ServerLaws full
full-ServerLaws = record {
  contents = λ s k n. some (everything k n);
  stored-key =
      λ s k n o h. ap (key_of k) (sym (some-injective (everything k n) o h)) ∙ everything-key k n;
  get-keeps = λ k n s. refl;
  get-found = λ k n s o h. full-stored k n o h;
  get-missing = λ k n s e h m. absurd (cc);
  create-keeps = λ k o s j m x h. h;
  create-stored = λ k o o' s h. absurd (cc);
  create-key = λ k o o' s h. absurd (cc);
  update-apart = λ k o s j m a. refl;
  update-present = λ k o s j m h. h;
  delete-apart = λ k o s j m a. refl;
  update_status-apart = λ k o s j m a. refl;
  update_status-present = λ k o s j m h. h;
  list-keeps = λ ns s. refl;
  generate_key-keeps = λ s. refl;
  generate_password-keeps = λ c s. refl;
  read_random-keeps = λ n s. refl;
}
