-- ===== src/Controllers/OnionBalancedService/Deployment.antt =====
-- controllers/tor/onionbalancedservice_deployment.go
pub mod Selects
use tor_controller.Base.{ℕ, String, true, false, none, some, Option, List, [], ◌∷◌}
use tor_controller.Base.Exec.{Exec, pure, ◌>>◌}
use tor_controller.Base.GoMap.{GoMap}
use tor_controller.Kube.Types.{
  Deployment, KeyToPath, Volume, VolumeMount, secret, config_map, empty_dir, Container,
  ContainerPort,
}
use tor_controller.Kube.Client.{Kube, deployment}
use tor_controller.Apis.Types.{OnionBalancedService, ProjectConfig}
use tor_controller.Apis.TorUtil.{metrics_port}
use tor_controller.Apis.OnionBalancedServiceUtil.{
  deployment_name, config_map_name, secret_name, service_account_name, deployment_labels,
  pod_template, tor_resources, balancer_resources,
}
use tor_controller.Controllers.Ensure.{Plan, named, wrapped, ensure}
use tor_controller.Controllers.Equal.{deployment_equal}
use tor_controller.Controllers.Objects.{owned_meta, mount, with_labels, extended}

unfoldable pub balance_volumes : OnionBalancedService → List Volume
balance_volumes balanced =
    record { name = "onionbalance-config"; volume_source = empty_dir }
    ∷ record {
      name = "tor-config";
      volume_source =
          config_map (config_map_name balanced) (record { key = "torfile"; path = "torfile" } ∷ []);
    }
    ∷ record { name = "ob-secret"; volume_source = secret (secret_name balanced) [] none }
    ∷ record {
      name = "private-key";
      volume_source =
          secret (secret_name balanced)
            (record { key = "privateKeyFile"; path = "private_key" }
              ∷ record { key = "onionAddress"; path = "hostname" }
              ∷ [])
            none;
    }
    ∷ []

unfoldable pub balancer_container : OnionBalancedService → ProjectConfig → Container
balancer_container balanced config = record {
  name = "onionbalance";
  image = config.tor_onionbalance_manager_image;
  command = [];
  args = "-name" ∷ balanced.object_meta.name ∷ "-namespace" ∷ balanced.object_meta.namespace ∷ [];
  image_pull_policy = "Always";
  volume_mounts =
      mount "onionbalance-config" "/run/onionbalance/" false
      ∷ mount "ob-secret" "/run/onionbalance/key" false
      ∷ [];
  ports = [];
  resources = balancer_resources balanced;
}

-- The mount path of the key is "/run/tor" followed by "key".
unfoldable pub balance_tor_container : OnionBalancedService → ProjectConfig → Container
balance_tor_container balanced config = record {
  name = "tor";
  image = config.tor_daemon_manager_image;
  command = "/usr/local/bin/tor" ∷ [];
  args = "-f" ∷ "/run/tor/torfile" ∷ [];
  image_pull_policy = "Always";
  volume_mounts =
      mount "tor-config" "/run/tor" false ∷ mount "private-key" "/run/torkey" false ∷ [];
  ports = record { name = "metrics"; protocol = "TCP"; container_port = metrics_port } ∷ [];
  resources = tor_resources balanced;
}

-- The labels are written into the map of the resource's own template, if it has one.
abbrev pub shared_labels : OnionBalancedService → Option (GoMap String) → OnionBalancedService
shared_labels balanced none = balanced
shared_labels balanced (some labels) = record balanced {
  spec = record balanced.spec {
    balancer_template = record balanced.spec.balancer_template {
      object_meta = record balanced.spec.balancer_template.object_meta {
        labels = some (with_labels (deployment_labels balanced) (some labels));
      };
    };
  };
}

module _ (K : Kube) (config : ProjectConfig) where
  -- The deployment, and the resource as the function leaves it.
  unfoldable pub balance_deployment : OnionBalancedService → Deployment × OnionBalancedService
  unfolding balance_volumes balancer_container balance_tor_container with_labels
  balance_deployment balanced = (
    record {
      object_meta =
          owned_meta K balanced.object_meta "OnionBalancedService" (deployment_name balanced) none;
      spec = record {
        match_labels = deployment_labels balanced;
        replicas = none;
        template =
            extended (pod_template balanced) (deployment_labels balanced)
              (service_account_name balanced) (balance_volumes balanced)
              (balancer_container balanced config ∷ balance_tor_container balanced config ∷ []);
      };
      status = "";
    },
    shared_labels balanced balanced.spec.balancer_template.object_meta.labels,
  )

  abbrev pub deployment_plan : OnionBalancedService → Plan K deployment
  deployment_plan balanced = record {
    desired = (balance_deployment balanced).0;
    may_create = true;
    equal = deployment_equal K;
    fail_get = wrapped K "failed to get Deployment %s";
    fail_create = wrapped K "failed to create Deployment %#v";
    fail_update = wrapped K "failed to update Deployment %#v";
  }

  unfoldable pub reconcile_deployment :
      OnionBalancedService → Exec K.State K.Error OnionBalancedService
  unfolding ensure balance_deployment
  reconcile_deployment balanced = do
    named K (deployment_name balanced)
        (ensure K balanced.object_meta deployment (deployment_plan balanced))
    pure (balance_deployment balanced).1
