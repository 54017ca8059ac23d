-- ===== src/Controllers/OnionBalancedService/Deployment/Selects.antt =====
-- The deployment of an OnionBalancedService selects its own pods.
use tor_controller.Base.{refl}
use tor_controller.Kube.Client.{Kube}
use tor_controller.Apis.Types.{OnionBalancedService, ProjectConfig}
use tor_controller.Apis.OnionBalancedServiceUtil.{
  deployment_labels, service_selector, service_name, pod_template,
}
use tor_controller.Controllers.Objects.Labels.{Selects, with_labels-keeps_own}
use tor_controller.Controllers.OnionBalancedService.Deployment.{balance_deployment}

-- Each label that the deployment of an OnionBalancedService selects stands with the same value in
-- its pod template, whatever labels the template of the OnionBalancedService had.
pub balance_deployment-Selects :
    (K : Kube) (config : ProjectConfig) (b : OnionBalancedService)
    → Selects (balance_deployment K config b).0
unfolding balance_deployment deployment_labels service_selector pod_template
balance_deployment-Selects K config b = (
  _,
  refl,
  with_labels-keeps_own (service_name b) b.object_meta.name
      b.spec.balancer_template.object_meta.labels,
)
