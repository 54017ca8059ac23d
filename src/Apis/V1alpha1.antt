-- ===== src/Apis/V1alpha1.antt =====
-- apis/tor/v1alpha1/onionservice_types.go and util.go: the version of the API before v1alpha2.
use tor_controller.Base.{ℕ, String, List, ◌==◌, if◌then◌else◌}
use tor_controller.Base.GoMap.{GoMap}
use tor_controller.Kube.Types.{ObjectMeta}
use tor_controller.Apis.Format.{suffixed}

pub record ServicePort : Type 0 where
  pub name : String
  pub public_port : ℕ
  pub target_port : ℕ

pub record SecretReference : Type 0 where
  pub name : String
  pub key : String

pub record OnionServiceSpec : Type 0 where
  pub ports : List ServicePort
  pub selector : GoMap String
  pub private_key_secret : SecretReference
  pub version : ℕ
  pub extra_config : String

pub record OnionServiceStatus : Type 0 where
  pub hostname : String
  pub target_cluster_ip : String

pub record OnionService : Type 0 where
  pub object_meta : ObjectMeta
  pub spec : OnionServiceSpec
  pub status : OnionServiceStatus

unfoldable pub get_version : OnionServiceSpec → ℕ
get_version s = if s.version == 2 then 2 else 3

unfoldable pub deployment_name : OnionService → String
deployment_name s = suffixed s.object_meta.name "-tor-daemon"

unfoldable pub service_name : OnionService → String
service_name s = suffixed s.object_meta.name "-tor-svc"

unfoldable pub role_name : OnionService → String
role_name s = suffixed s.object_meta.name "-tor-role"

unfoldable pub service_account_name : OnionService → String
service_account_name s = suffixed s.object_meta.name "-tor-serviceaccount"
