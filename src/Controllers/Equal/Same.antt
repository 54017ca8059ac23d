-- ===== src/Controllers/Equal/Same.antt =====
-- What serviceEqual of controllers/tor/utils_equal.go says when it answers true.
use tor_controller.Base.{Bool, true, false, ◌≡◌, if◌then◌else◌, not, test}
use tor_controller.Kube.Types.{Service, ObjectMeta-discrete}
use tor_controller.Kube.Client.{Kube}
use tor_controller.Controllers.Equal.{service_equal}

-- One test of a chain of tests.
passed :
    {P : Type 0} (d : Dec P) (rest : Bool)
    → (if not (test d) then false else rest) ≡ true
    → P × (rest ≡ true)
passed (yes p) rest h = (p, h)
passed (no n) rest h = absurd (cc)

pub service_equal-meta :
    (K : Kube) (a b : Service) → service_equal K a b ≡ true → a.object_meta ≡ b.object_meta
unfolding service_equal
service_equal-meta K a b h = (passed (ObjectMeta-discrete a.object_meta b.object_meta) _ h).0
