-- ===== src/Apis/Types.antt =====
-- apis/tor/v1alpha2/*_types.go and apis/config/v2/projectconfig_types.go. Ports, versions and
-- counts, `int32` in the source, are native numbers: the API's values are not negative.
use tor_controller.Base.{ℕ, String, Bool, List}
use tor_controller.Base.GoMap.{GoMap}
use tor_controller.Kube.Types.{ObjectMeta, PodSpec}

pub record SecretReference : Type 0 where
  pub name : String
  pub key : String

-- corev1.SecretKeySelector and corev1.ConfigMapKeySelector
pub record KeySelector : Type 0 where
  pub name : String
  pub key : String

pub record ServicePodTemplate : Type 0 where
  pub object_meta : ObjectMeta
  pub spec : PodSpec
  pub resources : String

pub record TorGenericPortSpec : Type 0 where
  pub enable : Bool
  pub port : ℕ
  pub address : List String

pub record TorGenericPortWithFlagSpec : Type 0 where
  pub generic : TorGenericPortSpec
  pub open generic use *
  pub flags : List String
  pub policy : List String

pub record TorClientSpec : Type 0 where
  pub dns : TorGenericPortWithFlagSpec
  pub natd : TorGenericPortWithFlagSpec
  pub socks : TorGenericPortWithFlagSpec
  pub http_tunnel : TorGenericPortWithFlagSpec
  pub trans : TorGenericPortWithFlagSpec
  pub trans_proxy_type : String

pub record TorServerSpec : Type 0 where
  pub with_flag : TorGenericPortWithFlagSpec
  pub open with_flag use *

pub record TorControlSpec : Type 0 where
  pub with_flag : TorGenericPortWithFlagSpec
  pub open with_flag use *
  pub secret : List String
  pub secret_ref : List KeySelector

pub record TorGenericPortDef : Type 0 where
  pub name : String
  pub protocol : String
  pub port : TorGenericPortSpec

pub record TorSpec : Type 0 where
  pub replicas : ℕ
  pub template : ServicePodTemplate
  pub client : TorClientSpec
  pub server : TorServerSpec
  pub control : TorControlSpec
  pub metrics : TorGenericPortWithFlagSpec
  pub service_monitor : Bool
  pub config : String
  pub config_map_key_ref : List KeySelector
  pub extra_args : List String

pub record Tor : Type 0 where
  pub object_meta : ObjectMeta
  pub spec : TorSpec
  pub status_config : String

-- networkingv1.ServiceBackendPort
pub record ServiceBackendPort : Type 0 where
  pub name : String
  pub number : ℕ

-- networkingv1.IngressServiceBackend; the controllers dereference `Backend.Service` unchecked, and
-- the model takes rules whose backend names a service.
pub record IngressServiceBackend : Type 0 where
  pub name : String
  pub port : ServiceBackendPort

pub record ServiceRule : Type 0 where
  pub port : ServiceBackendPort
  pub backend_service : IngressServiceBackend

pub record OnionServiceSpec : Type 0 where
  pub rules : List ServiceRule
  pub template : ServicePodTemplate
  pub private_key_secret : SecretReference
  pub authorized_clients : List SecretReference
  pub version : ℕ
  pub master_onion_address : String
  pub service_monitor : Bool
  pub extra_config : String

pub record OnionServiceStatus : Type 0 where
  pub hostname : String
  pub target_cluster_ip : String

pub record OnionService : Type 0 where
  pub object_meta : ObjectMeta
  pub spec : OnionServiceSpec
  pub status : OnionServiceStatus

pub record BalancerTemplate : Type 0 where
  pub object_meta : ObjectMeta
  pub spec : PodSpec
  pub tor_resources : String
  pub balancer_resources : String

pub record OnionBalancedServiceSpec : Type 0 where
  pub backends : ℕ
  pub private_key_secret : SecretReference
  pub version : ℕ
  pub service_monitor : Bool
  pub template_spec : OnionServiceSpec
  pub balancer_template : BalancerTemplate

pub record OnionBalancedServiceStatus : Type 0 where
  pub hostname : String
  pub target_cluster_ip : String
  pub backends : GoMap OnionServiceStatus

-- `kind` is the field of `metav1.TypeMeta`.
pub record OnionBalancedService : Type 0 where
  pub kind : String
  pub object_meta : ObjectMeta
  pub spec : OnionBalancedServiceSpec
  pub status : OnionBalancedServiceStatus

pub record ProjectConfig : Type 0 where
  pub namespace : String
  pub tor_daemon_image : String
  pub tor_daemon_manager_image : String
  pub tor_onionbalance_manager_image : String
