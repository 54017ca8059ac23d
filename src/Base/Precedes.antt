-- ===== src/Base/Precedes.antt =====
-- The order of texts that Go's maps are printed in is a strict linear order.
use Prim.Native.Nat.{ℕ, ◌<◌, Ordering, compare as compare_ℕ}
use Prim.Native.Char.{Char, code}
use Prim.Native.String.compare
use Prim.Native.String.{String, [], ◌∷◌, compare, then}
use native.Mathlib.Omega.{arith, compare-lt, compare-eq, compare-gt}
use text.Mathlib.TextEquality.{codes_equal}
use text.Mathlib.TextPositions.{compare_refl, compare_self}
use mathlib.Core.Path.{◌≡◌, refl, sym, ap, subst, ◌∙◌}
use mathlib.Core.Logic.{◌⊎◌, inl, inr}

abbrev pub Precedes : String → String → Type 0
Precedes s t = compare s t ≡ Ordering.lt

pub Ordering-cases : (o : Ordering) → (o ≡ Ordering.lt) ⊎ ((o ≡ Ordering.eq) ⊎ (o ≡ Ordering.gt))
Ordering-cases Ordering.lt = inl refl
Ordering-cases Ordering.eq = inr (inl refl)
Ordering-cases Ordering.gt = inr (inr refl)

lt_compare : (a b : ℕ) → a < b → compare_ℕ a b ≡ Ordering.lt
lt_compare a b h = elim (Ordering-cases (compare_ℕ a b)) [
  | inl e ↦ e
  | inr (inl e) ↦ absurd (let q : a ≡ b = compare-eq a b e in omega arith)
  | inr (inr e) ↦ absurd (let q : b < a = compare-gt a b e in omega arith)
]

then-lt :
    (o r : Ordering)
    → then o r ≡ Ordering.lt
    → (o ≡ Ordering.lt) ⊎ ((o ≡ Ordering.eq) × (r ≡ Ordering.lt))
then-lt Ordering.lt r h = inl refl
then-lt Ordering.eq r h = inr (refl, h)
then-lt Ordering.gt r h = cc

then-gt :
    (o r : Ordering)
    → then o r ≡ Ordering.gt
    → (o ≡ Ordering.gt) ⊎ ((o ≡ Ordering.eq) × (r ≡ Ordering.gt))
then-gt Ordering.lt r h = cc
then-gt Ordering.eq r h = inr (refl, h)
then-gt Ordering.gt r h = inl refl

-- How one text with a first character precedes another.
Step : Char → String → Char → String → Type 0
Step c s d t = (code c < code d) ⊎ ((c ≡ d) × Precedes s t)

step : (c d : Char) (s t : String) → Precedes (c ∷ s) (d ∷ t) → Step c s d t
unfolding Step
step c d s t h =
    elim (then-lt (compare_ℕ (code c) (code d)) (compare s t)
      (sym (compare.cons-cons c d s t) ∙ h)) [
        | inl e ↦ inl (compare-lt (code c) (code d) e)
        | inr (e, r) ↦ inr (codes_equal c d e, r)
      ]

step_back : (c d : Char) (s t : String) → Step c s d t → Precedes (c ∷ s) (d ∷ t)
unfolding Step
step_back c d s t (inl l) =
    compare.cons-cons c d s t ∙ ap (λ o. then o (compare s t)) (lt_compare (code c) (code d) l)
step_back c d s t (inr (e, r)) =
    subst (λ z. Precedes (c ∷ s) (z ∷ t)) e
      (compare.cons-cons c c s t ∙ ap (λ o. then o (compare s t)) (compare_self (code c)) ∙ r)

pub Precedes-trans : (s t u : String) → Precedes s t → Precedes t u → Precedes s u
unfolding Step
Precedes-trans [] [] [] p q = q
Precedes-trans [] (d ∷ t) [] p q = absurd (let e = sym (compare.cons-nil d t) ∙ q in cc)
Precedes-trans [] t (e ∷ u) p q = compare.nil-cons e u
Precedes-trans (c ∷ s) [] u p q = absurd (let e = sym (compare.cons-nil c s) ∙ p in cc)
Precedes-trans (c ∷ s) (d ∷ t) [] p q = absurd (let e = sym (compare.cons-nil d t) ∙ q in cc)
Precedes-trans (c ∷ s) (d ∷ t) (e ∷ u) p q = step_back c e s u (elim (step c d s t p) [
  | inl l ↦ elim (step d e t u q) [
    | inl m ↦ inl (omega arith)
    | inr (f, r) ↦ inl (subst (λ z. code c < code z) f l)
  ]
  | inr (g, r) ↦ elim (step d e t u q) [
    | inl m ↦ inl (subst (λ z. code z < code e) (sym g) m)
    | inr (f, v) ↦ inr (g ∙ f, Precedes-trans s t u r v)
  ]
])

pub Precedes-irrefl : (s : String) → ¬ Precedes s s
Precedes-irrefl s h = let e : Ordering.eq ≡ Ordering.lt = sym (compare_refl s) ∙ h in cc

-- A text that comes after another is preceded by it.
pub Precedes-gt : (s t : String) → compare s t ≡ Ordering.gt → Precedes t s
unfolding Step
Precedes-gt [] [] h = absurd (let e = sym compare.nil-nil ∙ h in cc)
Precedes-gt [] (d ∷ t) h = absurd (let e = sym (compare.nil-cons d t) ∙ h in cc)
Precedes-gt (c ∷ s) [] h = compare.nil-cons c s
Precedes-gt (c ∷ s) (d ∷ t) h =
    step_back d c t s
      (elim (then-gt (compare_ℕ (code c) (code d)) (compare s t)
        (sym (compare.cons-cons c d s t) ∙ h)) [
          | inl e ↦ inl (compare-gt (code c) (code d) e)
          | inr (e, r) ↦ inr (sym (codes_equal c d e), Precedes-gt s t r)
        ])
