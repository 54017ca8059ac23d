-- ===== src/Base/GoMap.antt =====
-- Go's `map[string]V`, kept as the entries in the order of their keys, each key once.
pub mod Sorted
use Prim.Native.String.{String, compare}
use text.Mathlib.Text.{is_lt}
use mathlib.Core.Path.{◌≡◌, refl}
use mathlib.Core.Option.{Option, none, some}
use mathlib.Core.List.{List, [], ◌∷◌}
use native.Mathlib.Omega.{arith}
use text.Mathlib.Text.{◌==◌}
use text.Mathlib.TextEquality.{eq_iff}
use mathlib.Core.Bool.{true, false}
use tor_controller.Base.Tests.{if◌then◌else◌}

abbrev pub GoMap : Type 0 → Type 0
GoMap V = List (String × V)

module _ {V : Type 0} where
  unfoldable pub lookup : String → GoMap V → Option V
  lookup k [] = none
  lookup k ((j, v) ∷ m) = if j == k then some v else lookup k m

  -- m[k] = v
  unfoldable pub insert : String → V → GoMap V → GoMap V
  insert k v [] = (k, v) ∷ []
  insert k v ((j, w) ∷ m) =
      if j == k
      then (k, v) ∷ m
      else (if is_lt (compare k j) then (k, v) ∷ (j, w) ∷ m else (j, w) ∷ insert k v m)

  -- A key reads what was written to it last, and a write leaves the other keys alone.
  pub lookup-insert_self : (m : GoMap V) (k : String) (v : V) → lookup k (insert k v m) ≡ some v
  unfolding lookup insert
  lookup-insert_self [] k v = let e : (k == k) ≡ true = (eq_iff k k).1 refl in rw e refl
  lookup-insert_self ((i, w) ∷ m) k v =
      ground (arith, eq_iff k k, eq_iff i k, lookup-insert_self m k v)

  pub lookup-insert_other :
      (m : GoMap V) (k j : String) (v : V) → (k == j) ≡ false → lookup j (insert k v m) ≡ lookup j m
  unfolding lookup insert
  lookup-insert_other [] k j v h = rw h refl
  lookup-insert_other ((i, w) ∷ m) k j v h =
      ground (arith, eq_iff k j, eq_iff i k, eq_iff i j, lookup-insert_other m k j v h)

  -- for k, v := range src { dst[k] = v }
  unfoldable pub insert_all : GoMap V → GoMap V → GoMap V
  insert_all [] dst = dst
  insert_all ((k, v) ∷ src) dst = insert_all src (insert k v dst)
