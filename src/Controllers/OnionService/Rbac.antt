-- ===== src/Controllers/OnionService/Rbac.antt =====
-- controllers/tor/onionservice_serviceaccount.go, onionservice_role.go and
-- onionservice_rolebinding.go
use tor_controller.Base.{none, true, [], ◌∷◌}
use tor_controller.Kube.Types.{ServiceAccount, Role, RoleBinding}
use tor_controller.Kube.Client.{Kube, service_account, role, role_binding}
use tor_controller.Apis.Types.{OnionService}
use tor_controller.Apis.OnionServiceUtil.{role_name, service_account_name}
use tor_controller.Controllers.Ensure.{Plan, Done, named, wrapped, ensure}
use tor_controller.Controllers.Equal.{service_account_equal, role_equal, role_binding_equal}
use tor_controller.Controllers.Objects.{owned_meta, role_rules}

module _ (K : Kube) (onion : OnionService) where
  unfoldable pub onion_service_account : ServiceAccount
  onion_service_account = record {
    object_meta = owned_meta K onion.object_meta "OnionService" (service_account_name onion) none;
    secrets = [];
    image_pull_secrets = [];
    automount_service_account_token = none;
  }

  abbrev pub service_account_plan : Plan K service_account
  service_account_plan = record {
    desired = onion_service_account;
    may_create = true;
    equal = service_account_equal K;
    fail_get = wrapped K "failed to get ServiceAccount %s";
    fail_create = wrapped K "failed to create ServiceAccount %#v";
    fail_update = wrapped K "failed to update ServiceAccount %#v";
  }

  unfoldable pub reconcile_service_account : Done K
  unfolding ensure onion_service_account
  reconcile_service_account =
      named K (service_account_name onion)
        (ensure K onion.object_meta service_account service_account_plan)

  unfoldable pub onion_role : Role
  onion_role = record {
    object_meta = owned_meta K onion.object_meta "OnionService" (role_name onion) none;
    rules = role_rules "onionservices" "onionservices/status";
  }

  abbrev pub role_plan : Plan K role
  role_plan = record {
    desired = onion_role;
    may_create = true;
    equal = role_equal K;
    fail_get = wrapped K "failed to get Role %s";
    fail_create = wrapped K "failed to create Role %#v";
    fail_update = wrapped K "failed to update Role %#v";
  }

  unfoldable pub reconcile_role : Done K
  unfolding ensure onion_role
  reconcile_role = named K (role_name onion) (ensure K onion.object_meta role role_plan)

  unfoldable pub onion_role_binding : RoleBinding
  onion_role_binding = record {
    object_meta = owned_meta K onion.object_meta "OnionService" (role_name onion) none;
    subjects = record { kind = "ServiceAccount"; name = service_account_name onion } ∷ [];
    role_ref = record { kind = "Role"; name = role_name onion };
  }

  abbrev pub role_binding_plan : Plan K role_binding
  role_binding_plan = record {
    desired = onion_role_binding;
    may_create = true;
    equal = role_binding_equal K;
    fail_get = wrapped K "failed to get Rolebinding %s";
    fail_create = wrapped K "failed to create Rolebinding %s";
    fail_update = wrapped K "failed to update Rolebinding %s";
  }

  unfoldable pub reconcile_role_binding : Done K
  unfolding ensure onion_role_binding
  reconcile_role_binding =
      named K (role_name onion) (ensure K onion.object_meta role_binding role_binding_plan)
