-- ===== src/Controllers/OnionBalancedService/ConfigMap.antt =====
-- controllers/tor/onionbalancedservice_configmap.go, with the template written out.
use Prim.Native.String.{◌++◌ as ◌<>◌}
use tor_controller.Base.{String, true, none, [], ◌∷◌}
use tor_controller.Kube.Types.{ConfigMap}
use tor_controller.Kube.Client.{Kube, config_map}
use tor_controller.Apis.Types.{OnionBalancedService}
use tor_controller.Apis.OnionBalancedServiceUtil.{config_map_name}
use tor_controller.Controllers.Ensure.{Plan, Done, named, wrapped, ensure_created}
use tor_controller.Controllers.Objects.{owned_meta}

abbrev pub balance_tor_config : String
balance_tor_config =
    "# Config automatically generated\nSocksPort 0\nControlPort 127.0.0.1:9051\n"
    <> "MetricsPort 0.0.0.0:9035\nMetricsPortPolicy accept 0.0.0.0/0\n"

module _ (K : Kube) (balanced : OnionBalancedService) where
  unfoldable pub balance_config_map : ConfigMap
  balance_config_map = record {
    object_meta =
        owned_meta K balanced.object_meta "onionbalancedservice" (config_map_name balanced) none;
    contents = ("torfile", balance_tor_config) ∷ [];
  }

  -- The map is only created: `equal` and `fail_update` are not used.
  abbrev pub config_map_plan : Plan K config_map
  config_map_plan = record {
    desired = balance_config_map;
    may_create = true;
    equal = λ _ _. true;
    fail_get = wrapped K "failed to get configmap %s";
    fail_create = wrapped K "failed to create configmap %s";
    fail_update = λ _. none;
  }

  unfoldable pub reconcile_config_map : Done K
  unfolding ensure_created balance_config_map
  reconcile_config_map =
      named K (config_map_name balanced)
        (ensure_created K balanced.object_meta config_map config_map_plan)
