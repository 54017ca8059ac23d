-- ===== src/Kube/Types.antt =====
-- The fields of Kubernetes' API types that the controllers read, write or compare. What they carry
-- unread (the rest of a pod's spec, a status, resources) is one text; TypeMeta is left out. A nil slice and an empty one
-- are one value, and which they are is what `same_nils` of the client says for a comparison; a nil map is told from an
-- empty one where the code tells them apart.
use tor_controller.Base.{ℕ, String, Bool, Option, List, ℕ_discrete, string_discrete}
use tor_controller.Base.GoMap.{GoMap}

pub record NamespacedName : Type 0 where
  pub name : String
  pub namespace : String

pub record GroupVersionKind : Type 0 where
  pub group : String
  pub version : String
  pub kind : String

pub record OwnerReference : Type 0 where
  pub api_version : String
  pub kind : String
  pub name : String
  pub uid : String
  pub controller : Bool
  pub block_owner_deletion : Bool

-- `uid`, `resource_version` and `server_fields` are filled in by the API server.
pub record ObjectMeta : Type 0 where
  pub name : String
  pub namespace : String
  pub uid : String
  pub resource_version : String
  pub server_fields : String
  pub labels : Option (GoMap String)
  pub owner_references : List OwnerReference

pub record ServicePort : Type 0 where
  pub name : String
  pub protocol : String
  pub port : ℕ
  pub target_port : ℕ

pub record ServiceSpec : Type 0 where
  pub selector : GoMap String
  pub ports : List ServicePort
  pub cluster_ip : String
  pub rest : String

pub record Service : Type 0 where
  pub object_meta : ObjectMeta
  pub spec : ServiceSpec
  pub status : String

pub record Secret : Type 0 where
  pub object_meta : ObjectMeta
  pub type : String
  pub contents : GoMap String

pub record ConfigMap : Type 0 where
  pub object_meta : ObjectMeta
  pub contents : GoMap String

pub record ServiceAccount : Type 0 where
  pub object_meta : ObjectMeta
  pub secrets : List String
  pub image_pull_secrets : List String
  pub automount_service_account_token : Option Bool

pub record PolicyRule : Type 0 where
  pub api_groups : List String
  pub verbs : List String
  pub resources : List String

pub record Role : Type 0 where
  pub object_meta : ObjectMeta
  pub rules : List PolicyRule

pub record Subject : Type 0 where
  pub kind : String
  pub name : String

pub record RoleRef : Type 0 where
  pub kind : String
  pub name : String

pub record RoleBinding : Type 0 where
  pub object_meta : ObjectMeta
  pub subjects : List Subject
  pub role_ref : RoleRef

pub record KeyToPath : Type 0 where
  pub key : String
  pub path : String

pub data VolumeSource : Type 0 where
  config_map : String → List KeyToPath → VolumeSource
  secret : String → List KeyToPath → Option ℕ → VolumeSource
  empty_dir : VolumeSource
  other : String → VolumeSource

pub record Volume : Type 0 where
  pub name : String
  pub volume_source : VolumeSource

pub record VolumeMount : Type 0 where
  pub name : String
  pub mount_path : String
  pub read_only : Bool

pub record ContainerPort : Type 0 where
  pub name : String
  pub protocol : String
  pub container_port : ℕ

pub record Container : Type 0 where
  pub name : String
  pub image : String
  pub command : List String
  pub args : List String
  pub image_pull_policy : String
  pub volume_mounts : List VolumeMount
  pub ports : List ContainerPort
  pub resources : String

pub record PodSpec : Type 0 where
  pub service_account_name : String
  pub volumes : List Volume
  pub containers : List Container
  pub rest : String

pub record PodTemplateSpec : Type 0 where
  pub object_meta : ObjectMeta
  pub spec : PodSpec

pub record DeploymentSpec : Type 0 where
  pub match_labels : GoMap String
  pub replicas : Option ℕ
  pub template : PodTemplateSpec

pub record Deployment : Type 0 where
  pub object_meta : ObjectMeta
  pub spec : DeploymentSpec
  pub status : String

pub record Endpoint : Type 0 where
  pub port : String
  pub path : String

pub record ServiceMonitorSpec : Type 0 where
  pub match_labels : GoMap String
  pub endpoints : List Endpoint
  pub match_names : List String

pub record ServiceMonitor : Type 0 where
  pub object_meta : ObjectMeta
  pub spec : ServiceMonitorSpec

pub ObjectMeta-discrete : Discrete ObjectMeta
ObjectMeta-discrete = hlevel (string_discrete, ℕ_discrete)

pub ServiceSpec-discrete : Discrete ServiceSpec
ServiceSpec-discrete = hlevel (string_discrete, ℕ_discrete)

pub DeploymentSpec-discrete : Discrete DeploymentSpec
DeploymentSpec-discrete = hlevel (string_discrete, ℕ_discrete, ObjectMeta-discrete)

pub ServiceMonitorSpec-discrete : Discrete ServiceMonitorSpec
ServiceMonitorSpec-discrete = hlevel (string_discrete, ℕ_discrete)

pub Strings-discrete : Discrete (List String)
Strings-discrete = hlevel string_discrete

pub Automount-discrete : Discrete (Option Bool)
Automount-discrete = hlevel

pub Rules-discrete : Discrete (List PolicyRule)
Rules-discrete = hlevel string_discrete

pub Subjects-discrete : Discrete (List Subject)
Subjects-discrete = hlevel string_discrete

pub RoleRef-discrete : Discrete RoleRef
RoleRef-discrete = hlevel string_discrete
