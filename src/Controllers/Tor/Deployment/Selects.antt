-- ===== src/Controllers/Tor/Deployment/Selects.antt =====
-- The deployment of a Tor selects its own pods.
use tor_controller.Base.{refl}
use tor_controller.Kube.Client.{Kube}
use tor_controller.Apis.Types.{Tor, ProjectConfig}
use tor_controller.Apis.TorUtil.{deployment_labels, service_selector, instance_name, pod_template}
use tor_controller.Controllers.Objects.Labels.{Selects, with_labels-keeps_own}
use tor_controller.Controllers.Tor.Deployment.{tor_deployment, one_replica}

-- Each label that the deployment of a Tor selects stands with the same value in its pod template,
-- whatever labels the template of the Tor had.
pub tor_deployment-Selects :
    (K : Kube) (config : ProjectConfig) (t : Tor) → Selects (tor_deployment K config t).0
unfolding tor_deployment deployment_labels service_selector pod_template
tor_deployment-Selects K config t =
    let u = one_replica t in
    (
      _,
      refl,
      with_labels-keeps_own (instance_name u) u.object_meta.name u.spec.template.object_meta.labels,
    )
