-- ===== src/Controllers/Objects/Labels.antt =====
-- The labels of a pod template, and the selector of the deployment that has the template.
use tor_controller.Base.{
  String, Bool, false, ◌≡◌, ◌∙◌, Option, none, some, [], ◌∷◌, arith, inl, inr, Bool-cases,
  if◌then◌else◌, str_eq, eq_iff, subst,
}
use tor_controller.Base.GoMap.{
  GoMap, lookup, insert, insert_all, lookup-insert_self, lookup-insert_other,
}
use tor_controller.Kube.Types.{Deployment}
use tor_controller.Controllers.Objects.{with_labels}

-- The selector of a deployment matches the pods that it makes.
abbrev pub Selects : Deployment → Type 0
Selects d =
    (labels : GoMap String) × (d.spec.template.object_meta.labels ≡ some labels)
    × ((k v : String) → lookup k d.spec.match_labels ≡ some v → lookup k labels ≡ some v)

abbrev pub pair : String → String → GoMap String
pair a c = ("app", a) ∷ ("controller", c) ∷ []

app_label :
    (a c : String) (given : GoMap String) (k v : String)
    → str_eq "controller" k ≡ false
    → lookup k (pair a c) ≡ some v
    → lookup k (insert "app" a given) ≡ some v
unfolding lookup
app_label a c given k v n h = elim (Bool-cases (str_eq "app" k)) [
  | inl e ↦
      subst (λ z. lookup z (pair a c) ≡ some v → lookup z (insert "app" a given) ≡ some v)
        ((eq_iff "app" k).0 e) (λ g. lookup-insert_self given "app" a ∙ g) h
  | inr e ↦ absurd (missing (str_eq "app" k) (str_eq "controller" k) e n h)
]
  where
    missing :
        (x y : Bool)
        → x ≡ false
        → y ≡ false
        → (if x then some a else (if y then some c else none)) ≡ some v
        → ⊥
    missing x y p q g = ground arith

written_labels :
    (a c : String) (given : GoMap String) (k v : String)
    → lookup k (pair a c) ≡ some v
    → lookup k (insert "controller" c (insert "app" a given)) ≡ some v
unfolding lookup
written_labels a c given k v h = elim (Bool-cases (str_eq "controller" k)) [
  | inl e ↦
      subst
        (λ z.
          lookup z (pair a c) ≡ some v
          → lookup z (insert "controller" c (insert "app" a given)) ≡ some v)
        ((eq_iff "controller" k).0 e)
        (λ g. lookup-insert_self (insert "app" a given) "controller" c ∙ g) h
  | inr e ↦
      lookup-insert_other (insert "app" a given) "controller" k c e ∙ app_label a c given k v e h
]

-- The two labels of a resource stand in the template's labels, whatever the template had.
pub with_labels-keeps_own :
    (a c : String) (given : Option (GoMap String)) (k v : String)
    → lookup k (pair a c) ≡ some v
    → lookup k (with_labels (pair a c) given) ≡ some v
unfolding with_labels insert_all
with_labels-keeps_own a c none k v h = h
with_labels-keeps_own a c (some given) k v h = written_labels a c given k v h
