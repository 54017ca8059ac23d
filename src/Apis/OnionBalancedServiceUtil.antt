-- ===== src/Apis/OnionBalancedServiceUtil.antt =====
-- apis/tor/v1alpha2/onionbalancedservice_util.go, and the names of the backends from
-- apis/tor/v1alpha2/onionservice_util.go
pub mod Names
pub mod Synced
use Prim.Native.String.{len, ◌++◌}
use tor_controller.Base.{
  ℕ, String, Bool, false, ◌&&◌, not, [], ◌∷◌, ltb, ◌==◌, if◌then◌else◌, str_eq, length, all,
}
use tor_controller.Base.GoMap.{GoMap}
use tor_controller.Kube.Types.{PodTemplateSpec}
use tor_controller.Apis.Types.{
  OnionBalancedService, OnionBalancedServiceSpec, OnionServiceStatus, SecretReference,
}
use tor_controller.Apis.Format.{suffixed, decimal}

unfoldable pub get_version : OnionBalancedServiceSpec → ℕ
get_version s = if s.version == 2 then 2 else 3

unfoldable pub get_backends : OnionBalancedServiceSpec → ℕ
get_backends s = s.backends

unfoldable pub onion_service_backend_name : OnionBalancedService → ℕ → String
onion_service_backend_name s n = suffixed s.object_meta.name ("-tor-obb-" ++ decimal n)

unfoldable pub deployment_name : OnionBalancedService → String
deployment_name s = suffixed s.object_meta.name "-tor-daemon"

unfoldable pub config_map_name : OnionBalancedService → String
config_map_name s = suffixed s.object_meta.name "-tor-config"

unfoldable pub service_name : OnionBalancedService → String
service_name s = suffixed s.object_meta.name "-tor-svc"

unfoldable pub service_metrics_name : OnionBalancedService → String
service_metrics_name s = suffixed s.object_meta.name "-tor-metrics-svc"

-- s.Spec.PrivateKeySecret != (SecretReference{})
is_set : SecretReference → Bool
is_set r = not (str_eq r.name "" && str_eq r.key "")

unfoldable pub secret_name : OnionBalancedService → String
unfolding is_set
secret_name s =
    let r = s.spec.private_key_secret in
    if is_set r && ltb 0 (len r.name) then r.name else suffixed s.object_meta.name "-tor-secret"

unfoldable pub service_selector : OnionBalancedService → GoMap String
service_selector s = ("app", service_name s) ∷ ("controller", s.object_meta.name) ∷ []

unfoldable pub service_metrics_selector : OnionBalancedService → GoMap String
service_metrics_selector s =
    ("app", service_metrics_name s) ∷ ("controller", s.object_meta.name) ∷ []

unfoldable pub deployment_labels : OnionBalancedService → GoMap String
deployment_labels s = service_selector s

unfoldable pub role_name : OnionBalancedService → String
role_name s = suffixed s.object_meta.name "-tor-role"

unfoldable pub service_account_name : OnionBalancedService → String
service_account_name s = suffixed s.object_meta.name "-tor-sa"

abbrev pub has_hostname : String × OnionServiceStatus → Bool
has_hostname (_, backend) = not (str_eq backend.hostname "")

unfoldable pub is_synced : OnionBalancedService → Bool
unfolding get_backends all
is_synced s =
    if length s.status.backends == get_backends s.spec
    then all has_hostname s.status.backends
    else false

unfoldable pub pod_template : OnionBalancedService → PodTemplateSpec
pod_template s = record {
  object_meta = s.spec.balancer_template.object_meta;
  spec = s.spec.balancer_template.spec;
}

unfoldable pub tor_resources : OnionBalancedService → String
tor_resources s = s.spec.balancer_template.tor_resources

unfoldable pub balancer_resources : OnionBalancedService → String
balancer_resources s = s.spec.balancer_template.balancer_resources
