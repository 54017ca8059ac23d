-- ===== src/Controllers/Ensure/Foreign.antt =====
-- An object that the owner does not control is never changed: each write of a reconcile function is
-- to an object that it read, or created, and that its owner controls.
use tor_controller.Controllers.Ensure.Guarded.{attempt-ok}
use tor_controller.Base.{none}
use mathlib.Core.Option.{some-injective}
use tor_controller.Base.{◌≡◌, ◌∙◌, sym, ap, subst, true, false, Option, some}
use tor_controller.Base.Exec.{Result, ok, attempt, return_error}
use tor_controller.Kube.Types.{NamespacedName, ObjectMeta}
use tor_controller.Kube.Client.{
  Kube, Kind, Object, meta, key_of, service_monitor, ServerLaws, Apart,
}
use tor_controller.Controllers.Ensure.Guarded.{Guarded}

-- The object `x` stands at its place.
abbrev pub Holds :
    {K : Kube} (L : ServerLaws K) (j : Kind) (n : NamespacedName) (x : Object j) → K.State → Type 0
Holds L j n x s = L.contents s j n ≡ some x

-- Reads and early returns keep it.
pub get-Holds :
    {K : Kube} (L : ServerLaws K) {j : Kind} (n : NamespacedName) (x : Object j) (k : Kind)
    (m : NamespacedName) (s : K.State)
    → Holds L j n x s
    → Holds L j n x (K.get k m s).1
get-Holds L {j} n x k m s h = ap (λ c. c j n) (L.get-keeps k m s) ∙ h

pub returned-Holds :
    {K : Kube} (L : ServerLaws K) {j : Kind} (n : NamespacedName) (x : Object j)
    (e : Option K.Error) (s : K.State)
    → Holds L j n x s
    → Holds L j n x (return_error e s).1
unfolding return_error
returned-Holds L n x none s h = h
returned-Holds L n x (some e) s h = h

-- What `Get` found is there before it.
pub found :
    {K : Kube} (L : ServerLaws K) (k : Kind) (m : NamespacedName) (s : K.State)
    (r : Result K.Error (Object k)) (o : Object k)
    → (attempt (K.get k m) s).0 ≡ ok r
    → r ≡ ok o
    → L.contents s k m ≡ some o
found {K} L k m s r o e q =
    L.get-found k m s o
      (attempt-ok (K.get k m) s o (subst (λ z. (attempt (K.get k m) s).0 ≡ ok z) q e))

module _ {K : Kube} (L : ServerLaws K) (owner : ObjectMeta) where
  -- Two places, one with an object that the owner controls and one with an object that it does not.
  same_place :
      (s : K.State) (k : Kind) (m : NamespacedName) (existing : Object k)
      → L.contents s k m ≡ some existing
      → K.is_controlled_by (meta k existing) owner ≡ true
      → (x : Object k) → L.contents s k m ≡ some x
      → K.is_controlled_by (meta k x) owner ≡ false
      → ⊥
  same_place s k m existing e c x h f =
      let p : existing ≡ x = some-injective existing x (sym e ∙ h) in cc

  same_kind :
      (s : K.State) (k : Kind) (m : NamespacedName) (existing : Object k)
      → L.contents s k m ≡ some existing
      → K.is_controlled_by (meta k existing) owner ≡ true
      → {j : Kind} → k ≡ j
      → (x : Object j) → L.contents s j m ≡ some x
      → K.is_controlled_by (meta j x) owner ≡ false
      → ⊥
  same_kind s k m existing e c p =
      subst
        (λ j.
          (x : Object j)
          → L.contents s j m ≡ some x
          → K.is_controlled_by (meta j x) owner ≡ false
          → ⊥)
        p (same_place s k m existing e c)

module _ {K : Kube} (L : ServerLaws K) (owner : ObjectMeta) {j : Kind} (n : NamespacedName)
    (x : Object j) (foreign : K.is_controlled_by (meta j x) owner ≡ false) where
  pub controlled-Apart :
      (s : K.State) (k : Kind) (m : NamespacedName) (existing : Object k)
      → L.contents s k m ≡ some existing
      → K.is_controlled_by (meta k existing) owner ≡ true
      → Holds L j n x s
      → Apart K k m j n
  controlled-Apart s k m existing e c h (p, q) =
      same_kind L owner s k m existing e c p x (subst (λ z. L.contents s j z ≡ some x) (sym q) h)
        foreign

  -- What stands at a place survives whatever the reconcile functions do.
  pub Holds-guarded : Guarded L owner (Holds L j n x)
  Holds-guarded = record {
    get = λ k m. record { at = λ s h. ap (λ c. c j n) (L.get-keeps k m s) ∙ h };
    create = λ k o. record { at = λ s h. L.create-keeps k o s j n x h };
    update = λ k existing wanted s e c h.
        L.update-apart k wanted s j n (controlled-Apart s k (key_of k wanted) existing e c h) ∙ h;
    delete = λ existing s e c h.
        L.delete-apart service_monitor existing s j n
          (controlled-Apart s service_monitor (key_of service_monitor existing) existing e c h)
        ∙ h;
    list = λ ns. record { at = λ s h. ap (λ c. c j n) (L.list-keeps ns s) ∙ h };
    generate_key = record { at = λ s h. ap (λ c. c j n) (L.generate_key-keeps s) ∙ h };
    generate_password = λ c s h. ap (λ f. f j n) (L.generate_password-keeps c s) ∙ h;
    read_random = λ m s h. ap (λ f. f j n) (L.read_random-keeps m s) ∙ h;
  }
