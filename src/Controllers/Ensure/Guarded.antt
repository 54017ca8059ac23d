-- ===== src/Controllers/Ensure/Guarded.antt =====
-- Invariants that survive every read, every creation, and a write to an object that was read before
-- and that the owner controls. The reconcile functions keep all of them.
use tor_controller.Base.{
  String, ℕ, ◌≡◌, refl, ap, ◌∙◌, sym, subst, true, some, Option, inl, inr, Bool-cases,
  if◌then◌else◌,
}
use tor_controller.Base.Exec.{
  Result, ok, err, panic, Exec, pure, crash, attempt, caught, return_error, ◌>>=◌,
}
use tor_controller.Kube.Types.{NamespacedName, ObjectMeta}
use tor_controller.Kube.Client.{
  Kube, Kind, service_monitor, Object, meta, key_of, GeneratorConfig, ServerLaws,
}
use tor_controller.Base.{str_eq}
use tor_controller.Controllers.Ensure.{named}
use tor_controller.Controllers.Ensure.{
  Plan, Done, checked, on_created, on_found, with_object, if_controlled, update_if_changed,
  ensure_created, ensure,
}
use tor_controller.Controllers.Ensure.Keeps.{
  Keeps, bind_keeps, Keeps-return_error, Keeps-if, Keeps-pure, keeps_rules,
}

pub record Guarded {K : Kube} (L : ServerLaws K) (owner : ObjectMeta) (P : K.State → Type 0)
    : Type 0 where
  pub get : (k : Kind) (m : NamespacedName) → Keeps P (K.get k m)
  pub create : (k : Kind) (o : Object k) → Keeps P (K.create k o)
  pub update :
      (k : Kind) (existing wanted : Object k) (s : K.State)
      → L.contents s k (key_of k wanted) ≡ some existing
      → K.is_controlled_by (meta k existing) owner ≡ true
      → P s
      → P (K.update k wanted s).1
  pub delete :
      (existing : Object service_monitor) (s : K.State)
      → L.contents s service_monitor (key_of service_monitor existing) ≡ some existing
      → K.is_controlled_by (meta service_monitor existing) owner ≡ true
      → P s
      → P (K.delete service_monitor existing s).1
  pub list : (ns : String) → Keeps P (K.list_onion_services ns)
  pub generate_key : Keeps P K.generate_key
  pub generate_password : (c : GeneratorConfig) (s : K.State) → P s → P (K.generate_password c s).1
  pub read_random : (n : ℕ) (s : K.State) → P s → P (K.read_random n s).1

-- What `attempt` answers is what the action answers.
pub attempt-ok :
    {S E A : Type 0} (m : Exec S E A) (s : S) (a : A) → (attempt m s).0 ≡ ok (ok a) → (m s).0 ≡ ok a
unfolding attempt
attempt-ok {E = E} {A = A} m s a h = inside (m s).0 h
  where
    inside : (r : Result E A) → caught r ≡ ok (ok a) → r ≡ ok a
    inside (ok b) e = cc
    inside (err b) e = cc
    inside panic e = cc

pub attempt-err :
    {S E A : Type 0} (m : Exec S E A) (s : S) (x : E)
    → (attempt m s).0 ≡ ok (err x)
    → (m s).0 ≡ err x
unfolding attempt
attempt-err {E = E} {A = A} m s x h = inside (m s).0 h
  where
    inside : (r : Result E A) → caught r ≡ ok (err x) → r ≡ err x
    inside (ok b) e = cc
    inside (err b) e = cc
    inside panic e = cc

pub checked-Keeps :
    (K : Kube) (P : K.State → Type 0) (fail : K.Error → Option K.Error) {A : Type 0}
    (r : Result K.Error A)
    → Keeps P (checked K fail r)
unfolding checked
checked-Keeps K P fail (ok a) = search keeps_rules
checked-Keeps K P fail (err e) = search keeps_rules
checked-Keeps K P fail panic = search keeps_rules

module _ {K : Kube} (L : ServerLaws K) (owner : ObjectMeta) (P : K.State → Type 0)
    (g : Guarded L owner P) (k : Kind) (p : Plan K k) where
  -- A continuation keeps the invariant when it is given an object that is there.
  abbrev pub KeepsAt : (Object k → Object k → Done K) → Type 0
  KeepsAt after =
      (s : K.State) (existing wanted : Object k)
      → L.contents s k (key_of k wanted) ≡ some existing
      → P s
      → P (after existing wanted s).1

  pub nothing-KeepsAt : KeepsAt (λ _ _. pure tt)
  unfolding pure
  nothing-KeepsAt s existing wanted e h = h

  abbrev pub Controlled : (Object k → Object k → Done K) → Type 0
  Controlled after =
      (s : K.State) (existing wanted : Object k)
      → L.contents s k (key_of k wanted) ≡ some existing
      → K.is_controlled_by (meta k existing) owner ≡ true
      → P s
      → P (after existing wanted s).1

  pub if_controlled-KeepsAt :
      (after : Object k → Object k → Done K)
      → Controlled after
      → KeepsAt (if_controlled K owner k p after)
  unfolding if_controlled pure
  if_controlled-KeepsAt after keep s existing wanted e h =
      elim (Bool-cases (K.is_controlled_by (meta k existing) owner)) [
        | inl c ↦ rw c (keep s existing wanted e c h)
        | inr c ↦ rw c h
      ]

  pub update_if_changed-Controlled : Controlled (update_if_changed K owner k p)
  unfolding update_if_changed pure attempt
  update_if_changed-Controlled s existing wanted e c h =
      elim (Bool-cases (p.equal existing wanted)) [
        | inl same ↦ rw same h
        | inr differ ↦ rw differ (
            bind_keeps P (attempt (K.update k wanted)) (checked K p.fail_update) s
              (g.update k existing wanted s e c h)
              (λ r _.
                (checked-Keeps K P p.fail_update r).at _ (g.update k existing wanted s e c h)))
      ]

  fails-Keeps : (e : Option K.Error) → Keeps P (return_error e)
  fails-Keeps e = Keeps-return_error e

  pub on_created-at :
      (after : Object k → Object k → Done K) (o : Object k) (s : K.State)
      → KeepsAt after
      → P (K.create k o s).1
      → (r : Result K.Error (Object k)) → (attempt (K.create k o) s).0 ≡ ok r
      → P (on_created K owner k p after r (K.create k o s).1).1
  unfolding on_created crash
  on_created-at after o s keep h (ok o') e =
      let made : (K.create k o s).0 ≡ ok o' = attempt-ok (K.create k o) s o' e in
      keep (K.create k o s).1 o' o'
        (subst (λ z. L.contents (K.create k o s).1 k z ≡ some o') (sym (L.create-key k o o' s made))
          (L.create-stored k o o' s made))
        h
  on_created-at after o s keep h (err e') e =
      (fails-Keeps (p.fail_create e')).at (K.create k o s).1 h
  on_created-at after o s keep h panic e = h

  create-Keeps :
      (after : Object k → Object k → Done K)
      → KeepsAt after
      → Keeps P (attempt (K.create k p.desired) >>= on_created K owner k p after)
  unfolding attempt
  create-Keeps after keep = record {
    at = λ t q.
        bind_keeps P (attempt (K.create k p.desired)) (on_created K owner k p after) t
          ((g.create k p.desired).at t q)
          (on_created-at after p.desired t keep ((g.create k p.desired).at t q));
  }

  missing-Keeps :
      (after : Object k → Object k → Done K) (e : K.Error)
      → KeepsAt after
      → Keeps P (
          if K.is_not_found e
          then (if p.may_create
              then attempt (K.create k p.desired) >>= on_created K owner k p after
              else pure tt)
          else return_error (p.fail_get e))
  missing-Keeps after e keep =
      Keeps-if (K.is_not_found e) _ _
        (λ _. Keeps-if p.may_create _ _ (λ _. create-Keeps after keep) (λ _. Keeps-pure tt))
        (λ _. fails-Keeps (p.fail_get e))

  -- From what `Get` answered, in a state that still has the object that it found.
  pub on_found-Keeps :
      (after : Object k → Object k → Done K) (r : Result K.Error (Object k)) (s : K.State)
      → KeepsAt after
      → ((o : Object k) → r ≡ ok o → L.contents s k (key_of k p.desired) ≡ some o)
      → P s
      → P (on_found K owner k p after r s).1
  unfolding on_found crash
  on_found-Keeps after (ok o) s keep there h = keep s o p.desired (there o refl) h
  on_found-Keeps after (err e) s keep there h = (missing-Keeps after e keep).at s h
  on_found-Keeps after panic s keep there h = h

  -- The object that `Get` found is still there after it.
  pub found-after_get :
      (m : NamespacedName) (s : K.State) (r : Result K.Error (Object k)) (o : Object k)
      → (attempt (K.get k m) s).0 ≡ ok r
      → r ≡ ok o
      → L.contents (K.get k m s).1 k m ≡ some o
  found-after_get m s r o e q =
      ap (λ c. c k m) (L.get-keeps k m s)
      ∙ L.get-found k m s o
          (attempt-ok (K.get k m) s o (subst (λ z. (attempt (K.get k m) s).0 ≡ ok z) q e))

  -- The continuation of the functions that create and never update.
  pub unchanged-KeepsAt : KeepsAt (if_controlled K owner k p (λ _ _. pure tt))
  unchanged-KeepsAt =
      if_controlled-KeepsAt (λ _ _. pure tt) (λ s a b e c h. nothing-KeepsAt s a b e h)

  pub with_object-Keeps :
      (after : Object k → Object k → Done K)
      → KeepsAt after
      → Keeps P (with_object K owner k p after)
  unfolding with_object attempt
  with_object-Keeps after keep = record {
    at = λ s h.
        bind_keeps P (attempt (K.get k (key_of k p.desired))) (on_found K owner k p after) s
          ((g.get k (key_of k p.desired)).at s h)
          (λ r e.
            on_found-Keeps after r (K.get k (key_of k p.desired) s).1 keep
              (λ o q. found-after_get (key_of k p.desired) s r o e q)
              ((g.get k (key_of k p.desired)).at s h));
  }

  pub ensure-Keeps : Keeps P (ensure K owner k p)
  unfolding ensure
  ensure-Keeps =
      with_object-Keeps (if_controlled K owner k p (update_if_changed K owner k p))
        (if_controlled-KeepsAt (update_if_changed K owner k p) update_if_changed-Controlled)

  pub ensure_created-Keeps : Keeps P (ensure_created K owner k p)
  unfolding ensure_created
  ensure_created-Keeps =
      with_object-Keeps (if_controlled K owner k p (λ _ _. pure tt))
        (if_controlled-KeepsAt (λ _ _. pure tt) (λ s a b e c h. nothing-KeepsAt s a b e h))

  pub named-ensure-Keeps : (name : String) → Keeps P (named K name (ensure K owner k p))
  named-ensure-Keeps name =
      Keeps-if (str_eq name "") (pure tt) (ensure K owner k p) (λ _. Keeps-pure tt)
        (λ _. ensure-Keeps)
