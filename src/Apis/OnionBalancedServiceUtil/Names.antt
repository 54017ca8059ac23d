-- ===== src/Apis/OnionBalancedServiceUtil/Names.antt =====
-- The names of the backends of an OnionBalancedService.
use Prim.Native.String.{◌++◌ as ◌<>◌}
use text.Mathlib.TextLemmas.{append_cancel_left}
use tor_controller.Base.{ℕ, ◌≡◌}
use tor_controller.Apis.Types.{OnionBalancedService}
use tor_controller.Apis.Format.{suffixed, decimal}
use tor_controller.Apis.Format.Distinct.{decimal_inj}
use tor_controller.Apis.OnionBalancedServiceUtil.{onion_service_backend_name}

-- Two backends of one OnionBalancedService have the same name only if they have the same index.
pub onion_service_backend_name_inj :
    (s : OnionBalancedService) (m n : ℕ)
    → onion_service_backend_name s m ≡ onion_service_backend_name s n
    → m ≡ n
unfolding onion_service_backend_name suffixed
onion_service_backend_name_inj s m n h = decimal_inj m n (
    append_cancel_left "-tor-obb-" (decimal m) (decimal n) (
      append_cancel_left s.object_meta.name ("-tor-obb-" <> decimal m) ("-tor-obb-" <> decimal n)
        h))
