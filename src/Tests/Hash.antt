-- ===== src/Tests/Hash.antt =====
-- The hash of a password in a cluster in memory, whose random source gives known bytes.
use tor_controller.Base.{
  suc, ℕ, String, List, [], ◌∷◌, none, some, ◌≡◌, refl, ◌*◌, ◌+◌, arith, length,
}
use tor_controller.Kube.Client.{onion_balanced_service}
use tor_controller.Kube.Full.{everything}
use tor_controller.Apis.OnionBalancedServiceUtil.Names.{onion_service_backend_name_inj}
use tor_controller.Kube.Memory.Client.{memory}
use tor_controller.Base.Bytes.{bytes}
use tor_controller.Controllers.HashPassword.{do_hash_password}
use tor_controller.Controllers.HashPassword.RoundTrip.{
  Parts, Agrees, read_hash, do_hash_password-read,
}

abbrev sevens : List ℕ
sevens = 7 ∷ 7 ∷ 7 ∷ 7 ∷ 7 ∷ 7 ∷ 7 ∷ 7 ∷ []

do_hash_password-read_example :
    (text : String) × (parts : Parts) × ((do_hash_password memory "secret" (λ k n. none)).0
      ≡ some text)
    × (read_hash text ≡ some parts)
    × (parts.0 ≡ sevens)
    × Agrees memory.sha1 "secret" parts
    × (length (bytes text) ≡ 21 + 2 * length parts.2)
do_hash_password-read_example =
    do_hash_password-read memory "secret" (λ k n. none) sevens refl refl (omega arith)
      (λ bs. omega arith)

onion_service_backend_name_inj_example : ◌≡◌ {A = ℕ} (suc 11) 12
onion_service_backend_name_inj_example =
    onion_service_backend_name_inj
      (everything onion_balanced_service (record { name = "hub"; namespace = "apps" })) (suc 11) 12
      refl
