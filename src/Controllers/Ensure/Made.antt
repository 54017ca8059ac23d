-- ===== src/Controllers/Ensure/Made.antt =====
-- What the reconcile functions of one shape make.
use Prim.Native.String.{len}
use mathlib.Core.Option.{some-ne-none}
use tor_controller.Base.{
  ◌≡◌, ◌≢◌, sym, ap, ◌∙◌, subst, true, false, String, none, some, str_eq, eq_iff, ltb, Bool-cases,
  inl, inr,
}
use tor_controller.Controllers.Ensure.Guarded.{attempt-err}
use tor_controller.Base.Exec.{Result, ok, err, attempt, return_error, Exec, ◌>>◌}
use tor_controller.Kube.Types.{NamespacedName, ObjectMeta}
use tor_controller.Kube.Client.{Kube, Kind, Object, key_of, service_monitor, ServerLaws, ErrorLaws}
use tor_controller.Apis.Format.{suffixed, suffixed-ne-empty}
use tor_controller.Controllers.Ensure.{Plan, named, wrapped, replaced, ensure}
use tor_controller.Controllers.Ensure.Keeps.{Keeps}
use tor_controller.Controllers.Ensure.Present.{
  Makes, Makes-return_error, Makes-named, Makes-first, Makes-last, Reports, Present, ensure-Makes,
}

-- The place of an object in the namespace of its owner.
abbrev pub place_in : ObjectMeta → String → NamespacedName
place_in m name = record { name = name; namespace = m.namespace }

pub wrapped-Reports :
    (K : Kube)
    → ErrorLaws K
    → (k : Kind) (p : Plan K k) (m n : String) → p.fail_get ≡ wrapped K m
    → p.fail_create ≡ wrapped K n
    → Reports K k p
wrapped-Reports K E k p m n g c = record {
  get = λ e h. E.wrap-some e m (ap (λ f. f e) (sym g) ∙ h);
  create = λ e h. E.wrap-some e n (ap (λ f. f e) (sym c) ∙ h);
}

pub replaced-Reports :
    (K : Kube) (k : Kind) (p : Plan K k) (m n : String)
    → p.fail_get ≡ replaced K m
    → p.fail_create ≡ replaced K n
    → Reports K k p
replaced-Reports K k p m n g c = record {
  get = λ e h. let r : some (K.new_error m) ≡ none = ap (λ f. f e) (sym g) ∙ h in cc;
  create = λ e h. let r : some (K.new_error n) ≡ none = ap (λ f. f e) (sym c) ∙ h in cc;
}

-- A text with bytes is not empty.
pub nonempty_of_len : (s : String) → ltb 0 (len s) ≡ true → str_eq s "" ≡ false
nonempty_of_len s h = elim (Bool-cases (str_eq s "")) [
  | inl e ↦ absurd (
      let q : ltb 0 (len "") ≡ true = subst (λ x. ltb 0 (len x) ≡ true) ((eq_iff s "").0 e) h in cc)
  | inr e ↦ e
]

module _ {K : Kube} (L : ServerLaws K) (owner : ObjectMeta) (k : Kind) (p : Plan K k)
    (other : k ≢ service_monitor) (reports : Reports K k p) (creates : p.may_create ≡ true) where
  -- A function whose object has a name with an ending, and may be created, makes its object.
  pub named-ensure-Makes :
      (base suffix : String)
      → str_eq suffix "" ≡ false
      → key_of k p.desired ≡ place_in owner (suffixed base suffix)
      → Makes
          (Present L k (place_in owner (suffixed base suffix)))
          (named K (suffixed base suffix) (ensure K owner k p))
  named-ensure-Makes base suffix s e =
      subst (λ n. Makes (Present L k n) (named K (suffixed base suffix) (ensure K owner k p))) e
        (Makes-named K _ (suffixed base suffix) _ (suffixed-ne-empty base suffix s)
          (ensure-Makes L owner k p other reports creates))

module _ {S E A B : Type 0} (P : S → Type 0) (m : Exec S E A) (n : Exec S E B) where
  -- In a row of actions one makes what those after it keep.
  pub Makes-here : Makes P m → Keeps P n → Makes P (m >> n)
  Makes-here k j = Makes-first P m (λ _. n) k (λ _. j)

  pub Makes-after : Makes P n → Makes P (m >> n)
  Makes-after k = Makes-last P m (λ _. n) (λ _. k)

-- A read that fails with an error other than "not found" is reported.
pub Makes-unread :
    {K : Kube} (E : ErrorLaws K) (P : K.State → Type 0) (e : K.Error) (m : String)
    → K.is_not_found e ≡ false
    → Makes P (return_error (K.wrap (K.ignore_not_found (some e)) m))
Makes-unread {K} E P e m h =
    Makes-return_error P (K.wrap (K.ignore_not_found (some e)) m)
      (λ q. E.wrap-some e m (ap (λ z. K.wrap z m) (sym (E.ignore-other e h)) ∙ q))

-- An object in the cluster is not reported as not found.
pub stored-not_missing :
    {K : Kube} (L : ServerLaws K) (k : Kind) (n : NamespacedName) (s : K.State) (x : Object k)
    → L.contents s k n ≡ some x
    → (v : Result K.Error (Object k)) (e : K.Error) → (attempt (K.get k n) s).0 ≡ ok v
    → v ≡ err e
    → K.is_not_found e ≡ false
stored-not_missing {K} L k n s x h v e p q = elim (Bool-cases (K.is_not_found e)) [
  | inl y ↦ absurd (
      some-ne-none x (
        sym h
        ∙ L.get-missing k n s e
            (attempt-err (K.get k n) s e (subst (λ z. (attempt (K.get k n) s).0 ≡ ok z) q p)) y))
  | inr y ↦ y
]
