-- ===== src/Base/Tests.antt =====
-- Boolean tests on native numbers and texts, as Go's operators `<`, `<=` and `==`.
use Prim.Native.Nat.{ℕ, compare, Ordering}
use Prim.Native.String.{String, ◌++◌}
use mathlib.Core.Path.{◌≡◌, refl}
use mathlib.Core.Logic.{◌⊎◌, inl, inr, ◌≢◌}
use mathlib.Core.Bool.{Bool, true, false}
use text.Mathlib.Text
use text.Mathlib.TextEquality.{eq_iff}
use text.Mathlib.TextLemmas.{append-ne-nil_of_right_ne-nil}

abbrev pub ltb : ℕ → ℕ → Bool
ltb a b = elim (compare a b) [ Ordering.lt ↦ true | _ ↦ false ]

abbrev pub leb : ℕ → ℕ → Bool
leb a b = elim (compare a b) [ Ordering.gt ↦ false | _ ↦ true ]

infix 50 ◌==◌
abbrev pub ◌==◌ : ℕ → ℕ → Bool
a == b = elim (compare a b) [ Ordering.eq ↦ true | _ ↦ false ]

infix 1 if◌then◌else◌
abbrev pub if◌then◌else◌ {ℓ} : {A : Type ℓ} → Bool → A → A → A
if true then x else y = x
if false then x else y = y

abbrev pub Bool-cases : (b : Bool) → (b ≡ true) ⊎ (b ≡ false)
Bool-cases true = inl refl
Bool-cases false = inr refl

pub differ : {b : Bool} → b ≡ false → b ≡ true → ⊥
differ p q = cc

unfoldable pub string_discrete : Discrete String
string_discrete s t = elim (Bool-cases (Text.◌==◌ s t)) [
  | inl e ↦ yes ((eq_iff s t).0 e)
  | inr e ↦ no (λ p. differ e ((eq_iff s t).1 p))
]

-- The Boolean form of a decision, as `reflect.DeepEqual` returns it.
abbrev pub test {ℓ} : {P : Type ℓ} → Dec P → Bool
test (yes _) = true
test (no _) = false

-- A text with a nonempty end is not empty.
pub append-ne-empty : (s t : String) → Text.◌==◌ t "" ≡ false → Text.◌==◌ (s ++ t) "" ≡ false
append-ne-empty s t h = elim (Bool-cases (Text.◌==◌ (s ++ t) "")) [
  | inl e ↦ absurd (append-ne-nil_of_right_ne-nil s right ((eq_iff (s ++ t) "").0 e))
  | inr e ↦ e
]
  where
    right : t ≢ ""
    right p = differ h ((eq_iff t "").1 p)
