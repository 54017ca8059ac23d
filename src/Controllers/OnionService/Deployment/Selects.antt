-- ===== src/Controllers/OnionService/Deployment/Selects.antt =====
-- The deployment of an OnionService selects its own pods.
use tor_controller.Base.{refl}
use tor_controller.Kube.Client.{Kube}
use tor_controller.Apis.Types.{OnionService, ProjectConfig}
use tor_controller.Apis.OnionServiceUtil.{
  deployment_labels, service_selector, service_name, pod_template,
}
use tor_controller.Controllers.Objects.Labels.{Selects, with_labels-keeps_own}
use tor_controller.Controllers.OnionService.Deployment.{onion_deployment}

-- Each label that the deployment of an OnionService selects stands with the same value in its pod
-- template, whatever labels the template of the OnionService had.
pub onion_deployment-Selects :
    (K : Kube) (config : ProjectConfig) (o : OnionService) → Selects (onion_deployment K config o).0
unfolding onion_deployment deployment_labels service_selector pod_template
onion_deployment-Selects K config o = (
  _,
  refl,
  with_labels-keeps_own (service_name o) o.object_meta.name o.spec.template.object_meta.labels,
)
