-- ===== src/Controllers/Ensure/Present.antt =====
-- What is there after a reconcile function that returns no error.
use tor_controller.Base.{
  ◌≡◌, ◌≢◌, ◌∙◌, sym, subst, refl, Bool, true, false, Option, none, some, if◌then◌else◌, str_eq,
  String,
}
use mathlib.Core.Option.{some-ne-none}
use tor_controller.Base.Exec.{
  Result, ok, err, panic, Exec, pure, crash, continue, attempt, return_error, ◌>>=◌,
}
use tor_controller.Kube.Types.{NamespacedName, ObjectMeta}
use tor_controller.Kube.Client.{Kube, Kind, Object, key_of, service_monitor, ServerLaws}
use tor_controller.Controllers.Ensure.{
  Plan, Done, named, on_created, on_found, with_object, if_controlled, update_if_changed, ensure,
  ensure_created,
}
use tor_controller.Controllers.Ensure.Keeps.{Keeps}
use tor_controller.Controllers.Ensure.Yields.{Yields}
use tor_controller.Controllers.Ensure.Guarded.{
  Guarded, KeepsAt, attempt-ok, on_created-at, found-after_get, if_controlled-KeepsAt,
  update_if_changed-Controlled, unchanged-KeepsAt,
}

-- A run that returns a value ends in a state of `P`.
pub record Makes {S E A : Type 0} (P : S → Type 0) (m : Exec S E A) : Type 0 where
  pub at : (s : S) (a : A) → (m s).0 ≡ ok a → P (m s).1

pub continue-makes :
    {S E A B : Type 0} (P : S → Type 0) (f : A → Exec S E B) (r : Result E A) (s : S)
    → ((a : A) → r ≡ ok a → (b : B) → (f a s).0 ≡ ok b → P (f a s).1)
    → (b : B) → (continue r f s).0 ≡ ok b
    → P (continue r f s).1
continue-makes P f (ok a) s k b h = k a refl b h
continue-makes P f (err e) s k b h = absurd (cc)
continue-makes P f panic s k b h = absurd (cc)

module _ {S E A B : Type 0} (P : S → Type 0) (m : Exec S E A) (f : A → Exec S E B) where
  pub Makes-last : ((a : A) → Makes P (f a)) → Makes P (m >>= f)
  unfolding ◌>>=◌
  Makes-last k = record {
    at = λ s b h. continue-makes P f (m s).0 (m s).1 (λ a e c g. (k a).at (m s).1 c g) b h;
  }

  pub Makes-first : Makes P m → ((a : A) → Keeps P (f a)) → Makes P (m >>= f)
  unfolding ◌>>=◌
  Makes-first k j = record {
    at = λ s b h. continue-makes P f (m s).0 (m s).1 (λ a e c g. (j a).at (m s).1 (k.at s a e)) b h;
  }

  -- What follows may use what holds of the first part's value.
  pub Makes-then :
      {R : A → Type 0} → Yields R m → ((a : A) → R a → Makes P (f a)) → Makes P (m >>= f)
  unfolding ◌>>=◌
  Makes-then r k = record {
    at = λ s b h.
        continue-makes P f (m s).0 (m s).1 (λ a e c g. (k a (r.at s a e)).at (m s).1 c g) b h;
  }

  pub Makes-first_then :
      {R : A → Type 0}
      → Yields R m
      → Makes P m
      → ((a : A) → R a → Keeps P (f a))
      → Makes P (m >>= f)
  unfolding ◌>>=◌
  Makes-first_then r k j = record {
    at = λ s b h.
        continue-makes P f (m s).0 (m s).1 (λ a e c g. (j a (r.at s a e)).at (m s).1 (k.at s a e)) b
          h;
  }

module _ {S E A B : Type 0} (P : S → Type 0) (m : Exec S E A) (f : A → Exec S E B) where
  -- With the state that the first part leaves.
  pub Makes-at :
      ((s : S) (a : A) → (m s).0 ≡ ok a → (b : B) → (f a (m s).1).0 ≡ ok b → P (f a (m s).1).1)
      → Makes P (m >>= f)
  unfolding ◌>>=◌
  Makes-at k = record { at = λ s b h. continue-makes P f (m s).0 (m s).1 (k s) b h }

pub Makes-return_error :
    {S E : Type 0} (P : S → Type 0) (e : Option E) → e ≢ none → Makes P (return_error e)
unfolding return_error
Makes-return_error P none d = absurd (d refl)
Makes-return_error P (some e) d = record { at = λ s a h. absurd (cc) }

pub Makes-crash : {S E A : Type 0} (P : S → Type 0) → Makes {E = E} {A = A} P crash
unfolding crash
Makes-crash P = record { at = λ s a h. absurd (cc) }

pub Makes-if :
    {S E A : Type 0} (P : S → Type 0) (b : Bool) (m n : Exec S E A)
    → Makes P m
    → Makes P n
    → Makes P (if b then m else n)
Makes-if P true m n km kn = km
Makes-if P false m n km kn = kn

pub Makes-if_true :
    {S E A : Type 0} (P : S → Type 0) (b : Bool) (m n : Exec S E A)
    → b ≡ true
    → Makes P m
    → Makes P (if b then m else n)
Makes-if_true P b m n h k = rw h k

pub Makes-named :
    (K : Kube) (P : K.State → Type 0) (name : String) (m : Done K)
    → str_eq name "" ≡ false
    → Makes P m
    → Makes P (named K name m)
Makes-named K P name m e k = rw e k

-- An object is there.
abbrev pub Present :
    {K : Kube} (L : ServerLaws K) (j : Kind) (n : NamespacedName) → K.State → Type 0
Present L j n s = L.contents s j n ≢ none

module _ {K : Kube} (L : ServerLaws K) where
  same_contents :
      (s t : K.State) (j : Kind) (n : NamespacedName)
      → L.contents t ≡ L.contents s
      → Present L j n s
      → Present L j n t
  same_contents s t j n e h = subst (λ c. c j n ≢ none) (sym e) h

  created-Present :
      (k : Kind) (o o' : Object k) (s : K.State)
      → (K.create k o s).0 ≡ ok o'
      → Present L k (key_of k o) (K.create k o s).1
  created-Present k o o' s e h = some-ne-none o' (sym (L.create-stored k o o' s e) ∙ h)

  kept_by_create :
      (k : Kind) (o : Object k) (s : K.State) (j : Kind) (n : NamespacedName)
      → (v : Option (Object j)) → L.contents s j n ≡ v
      → Present L j n s
      → Present L j n (K.create k o s).1
  kept_by_create k o s j n none e h = absurd (h e)
  kept_by_create k o s j n (some x) e h =
      λ g. some-ne-none x (sym (L.create-keeps k o s j n x e) ∙ g)

  -- Only monitors are ever deleted.
  pub Present-guarded :
      (owner : ObjectMeta) (j : Kind) (n : NamespacedName)
      → j ≢ service_monitor
      → Guarded L owner (Present L j n)
  Present-guarded owner j n d = record {
    get = λ k m. record { at = λ s h. same_contents s (K.get k m s).1 j n (L.get-keeps k m s) h };
    create = λ k o. record { at = λ s h. kept_by_create k o s j n (L.contents s j n) refl h };
    update = λ k existing wanted s e c h. L.update-present k wanted s j n h;
    delete = λ existing s e c h.
        rw (L.delete-apart service_monitor existing s j n (λ (p, q). d (sym p))) h;
    list = λ ns. record {
      at = λ s h. same_contents s (K.list_onion_services ns s).1 j n (L.list-keeps ns s) h;
    };
    generate_key = record {
      at = λ s h. same_contents s (K.generate_key s).1 j n (L.generate_key-keeps s) h;
    };
    generate_password =
        λ c s h. same_contents s (K.generate_password c s).1 j n (L.generate_password-keeps c s) h;
    read_random = λ m s h. same_contents s (K.read_random m s).1 j n (L.read_random-keeps m s) h;
  }

-- Failures to read and to create are reported.
pub record Reports (K : Kube) (k : Kind) (p : Plan K k) : Type 0 where
  pub get : (e : K.Error) → p.fail_get e ≢ none
  pub create : (e : K.Error) → p.fail_create e ≢ none

module _ {K : Kube} (L : ServerLaws K) (owner : ObjectMeta) (k : Kind) (p : Plan K k)
    (other : k ≢ service_monitor) (reports : Reports K k p) where
  abbrev pub Wanted : K.State → Type 0
  Wanted = Present L k (key_of k p.desired)

  pub guarded : Guarded L owner Wanted
  guarded = Present-guarded L owner k (key_of k p.desired) other

  module _ (after : Object k → Object k → Done K)
      (keep : KeepsAt L owner Wanted guarded k p after) where
    created-Makes :
        (s : K.State) (r : Result K.Error (Object k))
        → (attempt (K.create k p.desired) s).0 ≡ ok r
        → (b : Unit {0}) → (on_created K owner k p after r (K.create k p.desired s).1).0 ≡ ok b
        → Wanted (on_created K owner k p after r (K.create k p.desired s).1).1
    unfolding on_created
    created-Makes s (ok o) e b h =
        on_created-at L owner Wanted guarded k p after p.desired s keep
          (created-Present L k p.desired o s (attempt-ok (K.create k p.desired) s o e)) (ok o) e
    created-Makes s (err e') e b h =
        (Makes-return_error Wanted (p.fail_create e') (reports.create e')).at
          (K.create k p.desired s).1 b h
    created-Makes s panic e b h = (Makes-crash Wanted).at (K.create k p.desired s).1 b h

    missing-Makes :
        (e : K.Error)
        → p.may_create ≡ true
        → Makes Wanted (
            if K.is_not_found e
            then (if p.may_create
                then attempt (K.create k p.desired) >>= on_created K owner k p after
                else pure tt)
            else return_error (p.fail_get e))
    unfolding attempt
    missing-Makes e m =
        Makes-if Wanted (K.is_not_found e) _ _
          (Makes-if_true Wanted p.may_create _ _ m (
            Makes-at Wanted (attempt (K.create k p.desired)) (on_created K owner k p after)
              created-Makes))
          (Makes-return_error Wanted (p.fail_get e) (reports.get e))

    pub found-Makes :
        (t : K.State) (r : Result K.Error (Object k))
        → ((o : Object k) → r ≡ ok o → L.contents t k (key_of k p.desired) ≡ some o)
        → p.may_create ≡ true
        → (b : Unit {0}) → (on_found K owner k p after r t).0 ≡ ok b
        → Wanted (on_found K owner k p after r t).1
    unfolding on_found attempt
    found-Makes t (ok o) there m b h =
        keep t o p.desired (there o refl) (λ g. some-ne-none o (sym (there o refl) ∙ g))
    found-Makes t (err e) there m b h = (missing-Makes e m).at t b h
    found-Makes t panic there m b h = (Makes-crash Wanted).at t b h

    pub with_object-Makes : p.may_create ≡ true → Makes Wanted (with_object K owner k p after)
    unfolding with_object attempt
    with_object-Makes m =
        Makes-at Wanted (attempt (K.get k (key_of k p.desired))) (on_found K owner k p after)
          (λ s r e b h.
            found-Makes (K.get k (key_of k p.desired) s).1 r
              (λ o q. found-after_get L owner Wanted guarded k p (key_of k p.desired) s r o e q) m b
              h)

  -- The object of a reconcile function that may create it is there if no error comes back.
  pub ensure-Makes : p.may_create ≡ true → Makes Wanted (ensure K owner k p)
  unfolding ensure
  ensure-Makes = with_object-Makes (if_controlled K owner k p (update_if_changed K owner k p)) (
      if_controlled-KeepsAt L owner Wanted guarded k p (update_if_changed K owner k p)
        (update_if_changed-Controlled L owner Wanted guarded k p))

  pub ensure_created-Makes : p.may_create ≡ true → Makes Wanted (ensure_created K owner k p)
  unfolding ensure_created
  ensure_created-Makes =
      with_object-Makes (if_controlled K owner k p (λ _ _. pure tt))
        (unchanged-KeepsAt L owner Wanted guarded k p)
