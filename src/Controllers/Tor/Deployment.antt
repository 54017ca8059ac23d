-- ===== src/Controllers/Tor/Deployment.antt =====
-- controllers/tor/tor_deployment.go
pub mod Selects
use Prim.Native.String.{◌++◌ as ◌<>◌}
use tor_controller.Base.{
  ℕ, ◌+◌, String, true, false, none, some, Option, List, [], ◌∷◌, ◌++◌, ◌==◌, if◌then◌else◌,
}
use tor_controller.Base.Exec.{Exec, pure, ◌>>◌}
use tor_controller.Base.GoMap.{GoMap}
use tor_controller.Kube.Types.{
  Deployment, Volume, VolumeMount, config_map, empty_dir, Container, ContainerPort,
}
use tor_controller.Kube.Client.{Kube, deployment}
use tor_controller.Apis.Types.{Tor, KeySelector, ProjectConfig, TorGenericPortDef}
use tor_controller.Apis.Format.{decimal}
use tor_controller.Apis.TorUtil.{
  deployment_name, config_map_name, service_account_name, deployment_labels, pod_template,
  resources, get_all_ports,
}
use tor_controller.Controllers.Ensure.{Plan, named, wrapped, ensure}
use tor_controller.Controllers.Equal.{deployment_equal}
use tor_controller.Controllers.Objects.{owned_meta, mount, with_labels, extended}

-- The volumes and mounts of the referenced config maps, numbered from `i`.
unfoldable pub custom_volumes : ℕ → List KeySelector → List Volume
unfolding decimal
custom_volumes i [] = []
custom_volumes i (ref ∷ refs) =
    record {
      name = "custom-" <> decimal i;
      volume_source =
          config_map ref.name
            (record { key = ref.key; path = "custom-" <> (decimal i <> ".conf") } ∷ []);
    }
    ∷ custom_volumes (i + 1) refs

unfoldable pub custom_mounts : ℕ → List KeySelector → List VolumeMount
unfolding decimal
custom_mounts i [] = []
custom_mounts i (ref ∷ refs) =
    mount ("custom-" <> decimal i) ("/config/" <> ("custom-" <> decimal i)) false
    ∷ custom_mounts (i + 1) refs

-- The loop of getTorContainerPortList.
unfoldable pub container_ports : List TorGenericPortDef → List ContainerPort
container_ports [] = []
container_ports (d ∷ ds) =
    let rest = container_ports ds in
    if d.port.enable
    then record { name = d.name; protocol = d.protocol; container_port = d.port.port } ∷ rest
    else rest

unfoldable pub get_tor_container_port_list : Tor → List ContainerPort
unfolding container_ports get_all_ports
get_tor_container_port_list tor = container_ports (get_all_ports tor)

unfoldable pub tor_volumes : Tor → List Volume
unfolding custom_volumes
tor_volumes tor =
    (record {
      name = "tor-config";
      volume_source =
          config_map (config_map_name tor) (record { key = "torfile"; path = "torfile" } ∷ []);
    }
      ∷ record { name = "tor-service"; volume_source = empty_dir }
      ∷ record { name = "tor-data"; volume_source = empty_dir }
      ∷ [])
    ++ custom_volumes 0 tor.spec.config_map_key_ref

unfoldable pub tor_volume_mounts : Tor → List VolumeMount
unfolding custom_mounts
tor_volume_mounts tor =
    (mount "tor-config" "/run/tor" false
      ∷ mount "tor-service" "/run/tor/service" false
      ∷ mount "tor-data" "/var/lib/tor" false
      ∷ [])
    ++ custom_mounts 0 tor.spec.config_map_key_ref

unfoldable pub tor_container : Tor → ProjectConfig → Container
unfolding tor_volume_mounts get_tor_container_port_list
tor_container tor config = record {
  name = "tor";
  image = config.tor_daemon_image;
  command = [];
  args = "-f" ∷ "/run/tor/torfile" ∷ tor.spec.extra_args;
  image_pull_policy = "Always";
  volume_mounts = tor_volume_mounts tor;
  ports = get_tor_container_port_list tor;
  resources = resources tor;
}

-- if tor.Spec.Replicas == 0 { tor.Spec.Replicas = 1 }
abbrev pub one_replica : Tor → Tor
one_replica tor =
    if tor.spec.replicas == 0 then record tor { spec = record tor.spec { replicas = 1 } } else tor

-- The labels are written into the map of the Tor's own template, if it has one.
abbrev pub shared_labels : Tor → Option (GoMap String) → Tor
shared_labels tor none = tor
shared_labels tor (some labels) = record tor {
  spec = record tor.spec {
    template = record tor.spec.template {
      object_meta = record tor.spec.template.object_meta {
        labels = some (with_labels (deployment_labels tor) (some labels));
      };
    };
  };
}

module _ (K : Kube) (config : ProjectConfig) where
  -- The deployment, and the Tor as the function leaves it.
  unfoldable pub tor_deployment : Tor → Deployment × Tor
  unfolding tor_volumes tor_container with_labels
  tor_deployment given =
      let tor = one_replica given in
      (
        record {
          object_meta = owned_meta K tor.object_meta "Tor" (deployment_name tor) none;
          spec = record {
            match_labels = deployment_labels tor;
            replicas = some tor.spec.replicas;
            template =
                extended (pod_template tor) (deployment_labels tor) (service_account_name tor)
                  (tor_volumes tor) (tor_container tor config ∷ []);
          };
          status = "";
        },
        shared_labels tor tor.spec.template.object_meta.labels,
      )

  abbrev pub deployment_plan : Tor → Plan K deployment
  deployment_plan tor = record {
    desired = (tor_deployment tor).0;
    may_create = true;
    equal = deployment_equal K;
    fail_get = wrapped K "failed to get Deployment %s/%s";
    fail_create = wrapped K "failed to create Deployment %s/%s";
    fail_update = wrapped K "failed to update Deployment %s/%s";
  }

  unfoldable pub reconcile_deployment : Tor → Exec K.State K.Error Tor
  unfolding ensure tor_deployment
  reconcile_deployment tor = do
    named K (deployment_name tor) (ensure K tor.object_meta deployment (deployment_plan tor))
    pure (tor_deployment tor).1
