-- ===== src/Apis/OnionServiceUtil.antt =====
-- apis/tor/v1alpha2/onionservice_util.go
use Prim.Native.String.{len}
use tor_controller.Base.{ℕ, String, [], ◌∷◌, ltb, ◌==◌, if◌then◌else◌}
use tor_controller.Base.GoMap.{GoMap}
use tor_controller.Kube.Types.{PodTemplateSpec}
use tor_controller.Apis.Types.{OnionService, OnionServiceSpec}
use tor_controller.Apis.Format.{suffixed}

unfoldable pub get_version : OnionServiceSpec → ℕ
get_version s = if s.version == 2 then 2 else 3

unfoldable pub deployment_name : OnionService → String
deployment_name s = suffixed s.object_meta.name "-tor-daemon"

unfoldable pub service_name : OnionService → String
service_name s = suffixed s.object_meta.name "-tor-svc"

unfoldable pub service_metrics_name : OnionService → String
service_metrics_name s = suffixed s.object_meta.name "-tor-metrics-svc"

unfoldable pub service_metrics_selector : OnionService → GoMap String
service_metrics_selector s =
    ("app", service_metrics_name s) ∷ ("controller", s.object_meta.name) ∷ []

unfoldable pub secret_name : OnionService → String
secret_name s =
    if ltb 0 (len s.spec.private_key_secret.name)
    then s.spec.private_key_secret.name
    else suffixed s.object_meta.name "-tor-secret"

unfoldable pub authorized_clients_secret_name : OnionService → String
authorized_clients_secret_name s = suffixed s.object_meta.name "-tor-auth"

unfoldable pub service_selector : OnionService → GoMap String
service_selector s = ("app", service_name s) ∷ ("controller", s.object_meta.name) ∷ []

unfoldable pub deployment_labels : OnionService → GoMap String
deployment_labels s = service_selector s

unfoldable pub role_name : OnionService → String
role_name s = suffixed s.object_meta.name "-tor-role"

unfoldable pub service_account_name : OnionService → String
service_account_name s = suffixed s.object_meta.name "-tor-sa"

unfoldable pub pod_template : OnionService → PodTemplateSpec
pod_template s = record { object_meta = s.spec.template.object_meta; spec = s.spec.template.spec }

unfoldable pub resources : OnionService → String
resources s = s.spec.template.resources
