-- ===== src/Controllers/OnionBalancedService/Rbac.antt =====
-- controllers/tor/onionbalancedservice_serviceaccount.go, onionbalancedservice_role.go and
-- onionbalancedservice_rolebinding.go
use Prim.Native.Char.{Char, char, code}
use tor_controller.Base.{ℕ, String, ◌==◌, if◌then◌else◌}
use tor_controller.Base.{none, true, [], ◌∷◌}
use tor_controller.Kube.Types.{ServiceAccount, Role, RoleBinding}
use tor_controller.Kube.Client.{Kube, service_account, role, role_binding}
use tor_controller.Apis.Types.{OnionBalancedService}
use tor_controller.Apis.OnionBalancedServiceUtil.{role_name, service_account_name}
use tor_controller.Controllers.Ensure.{Plan, Done, named, wrapped, ensure}
use tor_controller.Controllers.Equal.{service_account_equal, role_equal, role_binding_equal}
use tor_controller.Controllers.Objects.{owned_meta, role_rules}

-- strings.ToLower, on the letters A to Z
abbrev lower_letter : ℕ → Char → Char
lower_letter n c =
    if n == 65
    then char 97 tt
    else if n == 66
    then char 98 tt
    else if n == 67
    then char 99 tt
    else if n == 68
    then char 100 tt
    else if n == 69
    then char 101 tt
    else if n == 70
    then char 102 tt
    else if n == 71
    then char 103 tt
    else if n == 72
    then char 104 tt
    else if n == 73
    then char 105 tt
    else if n == 74
    then char 106 tt
    else if n == 75
    then char 107 tt
    else if n == 76
    then char 108 tt
    else if n == 77
    then char 109 tt
    else if n == 78
    then char 110 tt
    else if n == 79
    then char 111 tt
    else if n == 80
    then char 112 tt
    else if n == 81
    then char 113 tt
    else if n == 82
    then char 114 tt
    else if n == 83
    then char 115 tt
    else if n == 84
    then char 116 tt
    else if n == 85
    then char 117 tt
    else if n == 86
    then char 118 tt
    else if n == 87
    then char 119 tt
    else if n == 88
    then char 120 tt
    else if n == 89
    then char 121 tt
    else if n == 90
    then char 122 tt
    else c

unfoldable pub to_lower : String → String
to_lower String.[] = ""
to_lower (String.◌∷◌ c s) = String.◌∷◌ (lower_letter (code c) c) (to_lower s)

module _ (K : Kube) (balanced : OnionBalancedService) where
  unfoldable pub balance_service_account : ServiceAccount
  balance_service_account = record {
    object_meta =
        owned_meta K balanced.object_meta "OnionBalancedService" (service_account_name balanced)
          none;
    secrets = [];
    image_pull_secrets = [];
    automount_service_account_token = none;
  }

  abbrev pub service_account_plan : Plan K service_account
  service_account_plan = record {
    desired = balance_service_account;
    may_create = true;
    equal = service_account_equal K;
    fail_get = wrapped K "failed to get ServiceAccount %s";
    fail_create = wrapped K "failed to create ServiceAccount %#v";
    fail_update = wrapped K "failed to update ServiceAccount %#v";
  }

  unfoldable pub reconcile_service_account : Done K
  unfolding ensure balance_service_account
  reconcile_service_account =
      named K (service_account_name balanced)
        (ensure K balanced.object_meta service_account service_account_plan)

  unfoldable pub balance_role : Role
  balance_role = record {
    object_meta = owned_meta K balanced.object_meta balanced.kind (role_name balanced) none;
    rules = role_rules "onionbalancedservices" "onionbalancedservices/status";
  }

  abbrev pub role_plan : Plan K role
  role_plan = record {
    desired = balance_role;
    may_create = true;
    equal = role_equal K;
    fail_get = wrapped K "failed to get Role %s";
    fail_create = wrapped K "failed to create Role %#v";
    fail_update = wrapped K "failed to update Role %#v";
  }

  unfoldable pub reconcile_role : Done K
  unfolding ensure balance_role
  reconcile_role = named K (role_name balanced) (ensure K balanced.object_meta role role_plan)

  unfoldable pub balance_role_binding : RoleBinding
  unfolding to_lower
  balance_role_binding = record {
    object_meta =
        owned_meta K balanced.object_meta (to_lower balanced.kind) (role_name balanced) none;
    subjects = record { kind = "ServiceAccount"; name = service_account_name balanced } ∷ [];
    role_ref = record { kind = "Role"; name = role_name balanced };
  }

  abbrev pub role_binding_plan : Plan K role_binding
  role_binding_plan = record {
    desired = balance_role_binding;
    may_create = true;
    equal = role_binding_equal K;
    fail_get = wrapped K "failed to get Rolebinding";
    fail_create = wrapped K "failed to create Rolebinding";
    fail_update = wrapped K "filed to update Rolebinding %#v";
  }

  unfoldable pub reconcile_role_binding : Done K
  unfolding ensure balance_role_binding
  reconcile_role_binding =
      named K (role_name balanced) (ensure K balanced.object_meta role_binding role_binding_plan)
