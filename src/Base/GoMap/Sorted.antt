-- ===== src/Base/GoMap/Sorted.antt =====
-- A map holds its entries in the order of their keys, each key once.
use Prim.Native.Nat.{Ordering}
use Prim.Native.String.{String, compare}
use text.Mathlib.Text.{is_lt, ◌==◌}
use text.Mathlib.TextEquality.{eq_iff, path_by_compare}
use mathlib.Core.Path.{◌≡◌, refl, sym, ap, subst, ◌∙◌}
use mathlib.Core.Logic.{inl, inr}
use mathlib.Core.Bool.{true, false}
use mathlib.Core.Option.{some, some-injective}
use mathlib.Core.List.{[], ◌∷◌, Memᴰ}
use tor_controller.Base.Tests.{Bool-cases, differ}
use tor_controller.Base.Precedes.{
  Precedes, Ordering-cases, Precedes-trans, Precedes-irrefl, Precedes-gt,
}
use tor_controller.Base.GoMap.{GoMap, lookup, insert}

is_lt-Precedes : (k j : String) → is_lt (compare k j) ≡ true → Precedes k j
is_lt-Precedes k j h = elim (Ordering-cases (compare k j)) [
  | inl e ↦ e
  | inr (inl e) ↦ absurd (let q : is_lt Ordering.eq ≡ true = ap is_lt (sym e) ∙ h in cc)
  | inr (inr e) ↦ absurd (let q : is_lt Ordering.gt ≡ true = ap is_lt (sym e) ∙ h in cc)
]

not_before : (k j : String) → (j == k) ≡ false → is_lt (compare k j) ≡ false → Precedes j k
not_before k j d h = elim (Ordering-cases (compare k j)) [
  | inl e ↦ absurd (let q : is_lt Ordering.lt ≡ false = ap is_lt (sym e) ∙ h in cc)
  | inr (inl e) ↦ absurd (differ d ((eq_iff j k).1 (sym (path_by_compare k j e))))
  | inr (inr e) ↦ Precedes-gt k j e
]

module _ {V : Type 0} where
  -- Every key of the map comes after `k`.
  unfoldable pub After : String → GoMap V → Type 0
  After k [] = Unit
  After k ((j, w) ∷ m) = Precedes k j × After k m

  unfoldable pub Sorted : GoMap V → Type 0
  unfolding After
  Sorted [] = Unit
  Sorted ((k, v) ∷ m) = After k m × Sorted m

  After-trans : (i k : String) (m : GoMap V) → Precedes i k → After k m → After i m
  unfolding After
  After-trans i k [] p a = tt
  After-trans i k ((j, w) ∷ m) p (q, a) = (Precedes-trans i k j p q, After-trans i k m p a)

  insert-After :
      (i k : String) (v : V) (m : GoMap V) → Precedes i k → After i m → After i (insert k v m)
  unfolding After insert
  insert-After i k v [] p a = (p, tt)
  insert-After i k v ((j, w) ∷ m) p (q, a) = elim (Bool-cases (j == k)) [
    | inl e ↦ rw e (p, a)
    | inr d ↦ elim (Bool-cases (is_lt (compare k j))) [
      | inl l ↦ rw (d, l) (p, (q, a))
      | inr g ↦ rw (d, g) (q, insert-After i k v m p a)
    ]
  ]

  pub insert-Sorted : (k : String) (v : V) (m : GoMap V) → Sorted m → Sorted (insert k v m)
  unfolding Sorted After insert
  insert-Sorted k v [] s = (tt, tt)
  insert-Sorted k v ((j, w) ∷ m) (a, s) = elim (Bool-cases (j == k)) [
    | inl e ↦ rw e (subst (λ z. After z m) ((eq_iff j k).0 e) a, s)
    | inr d ↦ elim (Bool-cases (is_lt (compare k j))) [
      | inl l ↦
          rw (d, l)
            (let p : Precedes k j = is_lt-Precedes k j l in ((p, After-trans k j m p a), (a, s)))
      | inr g ↦ rw (d, g) (insert-After j k v m (not_before k j d g) a, insert-Sorted k v m s)
    ]
  ]

  pub lookup-Mem : (k : String) (v : V) (m : GoMap V) → lookup k m ≡ some v → Memᴰ (k, v) m
  unfolding lookup
  lookup-Mem k v [] h = absurd (cc)
  lookup-Mem k v ((j, w) ∷ m) h = elim (Bool-cases (j == k)) [
    | inl e ↦
        let q : lookup k ((j, w) ∷ m) ≡ some w = rw e refl in
        Memᴰ.head (λ i. (sym ((eq_iff j k).0 e) i, some-injective v w (sym h ∙ q) i))
    | inr d ↦
        let q : lookup k ((j, w) ∷ m) ≡ lookup k m = rw d refl in
        Memᴰ.tail (lookup-Mem k v m (sym q ∙ h))
  ]

  After-Mem : (i k : String) (v : V) (m : GoMap V) → After i m → Memᴰ (k, v) m → Precedes i k
  unfolding After
  After-Mem i k v [] a x = elim x [ ]
  After-Mem i k v ((j, w) ∷ m) (p, a) (Memᴰ.head e) = subst (Precedes i) (sym (ap (λ z. z.0) e)) p
  After-Mem i k v ((j, w) ∷ m) (p, a) (Memᴰ.tail x) = After-Mem i k v m a x

  pub Mem-lookup :
      (k : String) (v : V) (m : GoMap V) → Sorted m → Memᴰ (k, v) m → lookup k m ≡ some v
  unfolding lookup Sorted
  Mem-lookup k v [] s x = elim x [ ]
  Mem-lookup k v ((j, w) ∷ m) (a, s) (Memᴰ.head e) =
      let q : (j == k) ≡ true = (eq_iff j k).1 (sym (ap (λ z. z.0) e)) in
      rw q (ap some (sym (ap (λ z. z.1) e)))
  Mem-lookup k v ((j, w) ∷ m) (a, s) (Memᴰ.tail x) = elim (Bool-cases (j == k)) [
    | inl e ↦
        absurd
          (Precedes-irrefl k (subst (λ z. Precedes z k) ((eq_iff j k).0 e) (After-Mem j k v m a x)))
    | inr d ↦ rw d (Mem-lookup k v m s x)
  ]
