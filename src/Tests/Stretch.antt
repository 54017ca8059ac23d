-- ===== src/Tests/Stretch.antt =====
-- The loop of doHashPassword, and its hash, at a concrete input.
use tor_controller.Base.Bytes.{bytes}
use tor_controller.Controllers.HashPassword.Hex.{hash_with_salt-eq}
use tor_controller.Controllers.HashPassword.Stretch.{IsCycle, Ends, stretch-IsCycle}
use tor_controller.Controllers.HashPassword.{stretch, hex_upper, hash_with_salt}
use tor_controller.Base.{arith, ◌++◌}
use Prim.Native.String.{◌++◌ as ◌<>◌}
use tor_controller.Base.{ℕ, some, List, [], ◌∷◌, ◌≡◌}
use tor_controller.Kube.Memory.Client.{memory}

stretch-IsCycle_example : Ends (7 ∷ 8 ∷ []) 5 (stretch 6 (7 ∷ 8 ∷ []) 5)
stretch-IsCycle_example = stretch-IsCycle 6 (7 ∷ 8 ∷ []) 5 (omega arith) (omega arith)

hash_with_salt-eq_example :
    (written : List ℕ) × (hash_with_salt memory.sha1 (1 ∷ 2 ∷ []) "secret"
      ≡ some ("16:" <> (hex_upper (1 ∷ 2 ∷ []) <> ("60" <> hex_upper (memory.sha1 written)))))
    × IsCycle ((1 ∷ 2 ∷ []) ++ bytes "secret") 65536 written
hash_with_salt-eq_example = hash_with_salt-eq memory.sha1 (1 ∷ 2 ∷ []) "secret" (omega arith)
