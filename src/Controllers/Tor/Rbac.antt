-- ===== src/Controllers/Tor/Rbac.antt =====
-- controllers/tor/tor_serviceaccount.go, tor_role.go and tor_rolebinding.go
use tor_controller.Base.{none, true, [], ◌∷◌}
use tor_controller.Kube.Types.{ServiceAccount, Role, RoleBinding}
use tor_controller.Kube.Client.{Kube, service_account, role, role_binding}
use tor_controller.Apis.Types.{Tor}
use tor_controller.Apis.TorUtil.{role_name, service_account_name}
use tor_controller.Controllers.Ensure.{Plan, Done, named, wrapped, ensure}
use tor_controller.Controllers.Equal.{service_account_equal, role_equal, role_binding_equal}
use tor_controller.Controllers.Objects.{owned_meta, role_rules}

module _ (K : Kube) (tor : Tor) where
  unfoldable pub tor_service_account : ServiceAccount
  tor_service_account = record {
    object_meta = owned_meta K tor.object_meta "Tor" (service_account_name tor) none;
    secrets = [];
    image_pull_secrets = [];
    automount_service_account_token = none;
  }

  abbrev pub service_account_plan : Plan K service_account
  service_account_plan = record {
    desired = tor_service_account;
    may_create = true;
    equal = service_account_equal K;
    fail_get = wrapped K "failed to get ServiceAccount %s";
    fail_create = wrapped K "failed to create ServiceAccount %#v";
    fail_update = wrapped K "failed to update ServiceAccount %#v";
  }

  unfoldable pub reconcile_service_account : Done K
  unfolding ensure tor_service_account
  reconcile_service_account =
      named K (service_account_name tor)
        (ensure K tor.object_meta service_account service_account_plan)

  unfoldable pub tor_role : Role
  tor_role = record {
    object_meta = owned_meta K tor.object_meta "Tor" (role_name tor) none;
    rules = role_rules "tors" "tors/status";
  }

  abbrev pub role_plan : Plan K role
  role_plan = record {
    desired = tor_role;
    may_create = true;
    equal = role_equal K;
    fail_get = wrapped K "failed to get Role %s";
    fail_create = wrapped K "failed to create Role %#v";
    fail_update = wrapped K "failed to update Role %#v";
  }

  unfoldable pub reconcile_role : Done K
  unfolding ensure tor_role
  reconcile_role = named K (role_name tor) (ensure K tor.object_meta role role_plan)

  unfoldable pub tor_role_binding : RoleBinding
  tor_role_binding = record {
    object_meta = owned_meta K tor.object_meta "Tor" (role_name tor) none;
    subjects = record { kind = "ServiceAccount"; name = service_account_name tor } ∷ [];
    role_ref = record { kind = "Role"; name = role_name tor };
  }

  abbrev pub role_binding_plan : Plan K role_binding
  role_binding_plan = record {
    desired = tor_role_binding;
    may_create = true;
    equal = role_binding_equal K;
    fail_get = wrapped K "failed to get Rolebinding %s";
    fail_create = wrapped K "failed to create Rolebinding %s";
    fail_update = wrapped K "failed to update Rolebinding %s";
  }

  unfoldable pub reconcile_role_binding : Done K
  unfolding ensure tor_role_binding
  reconcile_role_binding =
      named K (role_name tor) (ensure K tor.object_meta role_binding role_binding_plan)
