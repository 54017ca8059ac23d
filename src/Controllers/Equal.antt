-- ===== src/Controllers/Equal.antt =====
-- controllers/tor/utils_equal.go and utils_exist.go. `reflect.DeepEqual` is equality of the values, with nil slices and
-- maps in the same places. The functions compare the fields that they name and leave out TypeMeta, which no record has.
pub mod Same
pub mod Ports
use tor_controller.Base.{
  String, Bool, true, false, ◌&&◌, ◌≡◌, refl, List, [], ◌∷◌, ◌==◌, if◌then◌else◌, str_eq, not, test,
  any,
}
use tor_controller.Kube.Types.{
  ObjectMeta, Deployment, Service, ServicePort, ServiceMonitor, ServiceAccount, Role, RoleBinding,
  ObjectMeta-discrete, ServiceSpec-discrete, DeploymentSpec-discrete, ServiceMonitorSpec-discrete,
  Strings-discrete, Automount-discrete, Rules-discrete, Subjects-discrete, RoleRef-discrete,
}
use tor_controller.Base.{string_discrete}
use tor_controller.Kube.Client.{
  Kube, deployment, service, service_monitor, service_account, role, role_binding,
}

unfoldable pub deployment_equal : (K : Kube) → Deployment → Deployment → Bool
deployment_equal K a b =
    if not (test (ObjectMeta-discrete a.object_meta b.object_meta))
    then false
    else if not (test (DeploymentSpec-discrete a.spec b.spec))
    then false
    else if not (test (string_discrete a.status b.status))
    then false
    else K.same_nils deployment a b

unfoldable pub service_equal : (K : Kube) → Service → Service → Bool
service_equal K a b =
    if not (test (ObjectMeta-discrete a.object_meta b.object_meta))
    then false
    else if not (test (ServiceSpec-discrete a.spec b.spec))
    then false
    else if not (test (string_discrete a.status b.status))
    then false
    else K.same_nils service a b

unfoldable pub monitor_service_equal : (K : Kube) → ServiceMonitor → ServiceMonitor → Bool
monitor_service_equal K a b =
    if not (test (ObjectMeta-discrete a.object_meta b.object_meta))
    then false
    else if not (test (ServiceMonitorSpec-discrete a.spec b.spec))
    then false
    else K.same_nils service_monitor a b

unfoldable pub service_account_equal : (K : Kube) → ServiceAccount → ServiceAccount → Bool
service_account_equal K a b =
    if not (test (ObjectMeta-discrete a.object_meta b.object_meta))
    then false
    else if not (test (Strings-discrete a.secrets b.secrets))
    then false
    else if not (test (Strings-discrete a.image_pull_secrets b.image_pull_secrets))
    then false
    else if not (
        test
          (Automount-discrete a.automount_service_account_token b.automount_service_account_token))
    then false
    else K.same_nils service_account a b

unfoldable pub role_binding_equal : (K : Kube) → RoleBinding → RoleBinding → Bool
role_binding_equal K a b =
    if not (test (ObjectMeta-discrete a.object_meta b.object_meta))
    then false
    else if not (test (Subjects-discrete a.subjects b.subjects))
    then false
    else if not (test (RoleRef-discrete a.role_ref b.role_ref))
    then false
    else K.same_nils role_binding a b

unfoldable pub role_equal : (K : Kube) → Role → Role → Bool
role_equal K a b =
    if not (test (ObjectMeta-discrete a.object_meta b.object_meta))
    then false
    else if not (test (Rules-discrete a.rules b.rules))
    then false
    else K.same_nils role a b

-- The test of the loop in portExists, for one port of the slice.
abbrev pub matches_port : ServicePort → ServicePort → Bool
matches_port item port =
    if str_eq port.protocol item.protocol
    then (if port.port == item.port
        then true
        else not (str_eq port.name "") && str_eq port.name item.name)
    else false

unfoldable pub port_exists : List ServicePort → ServicePort → Bool
unfolding any
port_exists slice item = any (matches_port item) slice
