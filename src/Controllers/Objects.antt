-- ===== src/Controllers/Objects.antt =====
-- What the objects that the three reconcilers build have in common: their metadata, and the
-- zero values of the fields that the code leaves out.
pub mod Labels
use tor_controller.Base.{ℕ, String, Bool, Option, none, some, List, [], ◌∷◌, ◌++◌}
use tor_controller.Base.GoMap.{GoMap, insert_all}
use tor_controller.Kube.Types.{
  GroupVersionKind, ObjectMeta, ServicePort, ServiceSpec, PolicyRule, ServiceMonitorSpec,
  VolumeMount, PodTemplateSpec, Volume, Container,
}
use tor_controller.Kube.Client.{Kube}

-- torv1alpha2.GroupVersion of apis/tor/v1alpha2/groupversion_info.go
abbrev pub group : String
group = "tor.k8s.torproject.org"

abbrev pub version : String
version = "v1alpha2"

abbrev pub group_version_kind : String → GroupVersionKind
group_version_kind kind = record { group = group; version = version; kind = kind }

-- metav1.ObjectMeta{Name, Namespace, Labels, OwnerReferences: {NewControllerRef(owner, kind)}}
abbrev pub owned_meta :
    (K : Kube) → ObjectMeta → String → String → Option (GoMap String) → ObjectMeta
owned_meta K owner kind name labels = record {
  name = name;
  namespace = owner.namespace;
  uid = "";
  resource_version = "";
  server_fields = "";
  labels = labels;
  owner_references = K.new_controller_ref owner (group_version_kind kind) ∷ [];
}

abbrev pub service_spec : GoMap String → List ServicePort → ServiceSpec
service_spec selector ports = record {
  selector = selector;
  ports = ports;
  cluster_ip = "";
  rest = "";
}

-- The rules of the role of a resource's pods.
abbrev pub role_rules : String → String → List PolicyRule
role_rules resource resource_status =
    record {
      api_groups = group ∷ [];
      verbs = "get" ∷ "list" ∷ "watch" ∷ [];
      resources = resource ∷ [];
    }
    ∷ record {
      api_groups = group ∷ [];
      verbs = "update" ∷ "patch" ∷ [];
      resources = resource_status ∷ [];
    }
    ∷ record {
      api_groups = "" ∷ [];
      verbs = "create" ∷ "update" ∷ "patch" ∷ [];
      resources = "events" ∷ [];
    }
    ∷ []

abbrev pub metrics_service_port : ℕ → ServicePort
metrics_service_port port = record {
  name = "metrics";
  protocol = "";
  port = port;
  target_port = port;
}

abbrev pub monitor_spec : GoMap String → String → ServiceMonitorSpec
monitor_spec selector namespace = record {
  match_labels = selector;
  endpoints = record { port = "metrics"; path = "/metrics" } ∷ [];
  match_names = namespace ∷ [];
}

abbrev pub mount : String → String → Bool → VolumeMount
mount name path read_only = record { name = name; mount_path = path; read_only = read_only }

-- The labels of a pod template: those given, with the resource's own put over them.
unfoldable pub with_labels : GoMap String → Option (GoMap String) → GoMap String
unfolding insert_all
with_labels own none = own
with_labels own (some given) = insert_all own given

-- A pod template with labels, a service account, and more volumes and containers.
abbrev pub extended :
    PodTemplateSpec → GoMap String → String → List Volume → List Container → PodTemplateSpec
extended t own account volumes containers = record {
  object_meta = record t.object_meta { labels = some (with_labels own t.object_meta.labels) };
  spec = record t.spec {
    service_account_name = account;
    volumes = t.spec.volumes ++ volumes;
    containers = t.spec.containers ++ containers;
  };
}
