-- ===== src/Controllers/OnionService/Deployment.antt =====
-- controllers/tor/onionservice_deployment.go
pub mod Selects
use tor_controller.Base.{
  ℕ, String, true, false, none, some, Option, List, [], ◌∷◌, ◌==◌, if◌then◌else◌, str_eq, not,
}
use tor_controller.Base.Exec.{Exec, pure, ◌>>◌}
use tor_controller.Base.GoMap.{GoMap}
use tor_controller.Kube.Types.{
  Deployment, KeyToPath, Volume, VolumeMount, secret, Container, ContainerPort,
}
use tor_controller.Kube.Client.{Kube, deployment}
use tor_controller.Apis.Types.{OnionService, ProjectConfig}
use tor_controller.Apis.TorUtil.{metrics_port}
use tor_controller.Apis.OnionServiceUtil.{
  get_version, deployment_name, secret_name, authorized_clients_secret_name, service_account_name,
  deployment_labels, pod_template, resources,
}
use tor_controller.Controllers.Ensure.{Plan, named, replaced, ensure}
use tor_controller.Controllers.Equal.{deployment_equal}
use tor_controller.Controllers.Objects.{owned_meta, mount, with_labels, extended}

abbrev pub public_key_file_name : OnionService → String
public_key_file_name onion =
    if get_version onion.spec == 2 then "public_key" else "hs_ed25519_public_key"

abbrev pub private_key_file_name : OnionService → String
private_key_file_name onion =
    if get_version onion.spec == 2 then "private_key" else "hs_ed25519_secret_key"

unfoldable pub volume_secret_items : OnionService → List KeyToPath
unfolding get_version
volume_secret_items onion =
    if not (str_eq onion.spec.private_key_secret.key "")
    then record { key = onion.spec.private_key_secret.key; path = private_key_file_name onion } ∷ []
    else record { key = "privateKeyFile"; path = private_key_file_name onion }
      ∷ record { key = "publicKeyFile"; path = public_key_file_name onion }
      ∷ record { key = "onionAddress"; path = "hostname" }
      ∷ []

-- The default mode 0400 is 256.
unfoldable pub onion_volumes : OnionService → List Volume
unfolding volume_secret_items
onion_volumes onion =
    record {
      name = "private-key";
      volume_source = secret (secret_name onion) (volume_secret_items onion) none;
    }
    ∷ record {
      name = "authorized-clients";
      volume_source = secret (authorized_clients_secret_name onion) [] (some 256);
    }
    ∷ []

unfoldable pub onion_container : OnionService → ProjectConfig → Container
onion_container onion config = record {
  name = "tor";
  image = config.tor_daemon_manager_image;
  command = [];
  args = "-name" ∷ onion.object_meta.name ∷ "-namespace" ∷ onion.object_meta.namespace ∷ [];
  image_pull_policy = "Always";
  volume_mounts =
      mount "private-key" "/run/tor/service/key" true
      ∷ mount "authorized-clients" "/run/tor/service/.authorized_clients" true
      ∷ [];
  ports = record { name = "metrics"; protocol = "TCP"; container_port = metrics_port } ∷ [];
  resources = resources onion;
}

-- The labels are written into the map of the resource's own template, if it has one.
abbrev pub shared_labels : OnionService → Option (GoMap String) → OnionService
shared_labels onion none = onion
shared_labels onion (some labels) = record onion {
  spec = record onion.spec {
    template = record onion.spec.template {
      object_meta = record onion.spec.template.object_meta {
        labels = some (with_labels (deployment_labels onion) (some labels));
      };
    };
  };
}

module _ (K : Kube) (config : ProjectConfig) where
  -- The deployment, and the resource as the function leaves it.
  unfoldable pub onion_deployment : OnionService → Deployment × OnionService
  unfolding onion_volumes onion_container with_labels
  onion_deployment onion = (
    record {
      object_meta = owned_meta K onion.object_meta "OnionService" (deployment_name onion) none;
      spec = record {
        match_labels = deployment_labels onion;
        replicas = none;
        template =
            extended (pod_template onion) (deployment_labels onion) (service_account_name onion)
              (onion_volumes onion) (onion_container onion config ∷ []);
      };
      status = "";
    },
    shared_labels onion onion.spec.template.object_meta.labels,
  )

  abbrev pub deployment_plan : OnionService → Plan K deployment
  deployment_plan onion = record {
    desired = (onion_deployment onion).0;
    may_create = true;
    equal = deployment_equal K;
    fail_get = replaced K "failed to get Deployment %s/%s";
    fail_create = replaced K "failed to create Deployment %#v";
    fail_update = replaced K "filed to update Deployment %#v";
  }

  unfoldable pub reconcile_deployment : OnionService → Exec K.State K.Error OnionService
  unfolding ensure onion_deployment
  reconcile_deployment onion = do
    named K (deployment_name onion) (ensure K onion.object_meta deployment (deployment_plan onion))
    pure (onion_deployment onion).1
