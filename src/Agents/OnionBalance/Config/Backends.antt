-- ===== src/Agents/OnionBalance/Config/Backends.antt =====
-- What the agent makes of the status that OnionBalancedServiceReconciler writes: the loop over the listed OnionServices
-- in controllers/tor/onionbalancedservice_controller.go, then the loop over the backends of
-- agents/onionbalance/config/config.go.
use mathlib.Core.List.{Memᴰ}
use tor_controller.Base.{
  ◌≡◌, ◌≢◌, refl, sym, ap, subst, ◌∙◌, ◌↔◌, inl, inr, String, Bool, true, false, not, Option, none,
  some, List, [], ◌∷◌, Bool-cases, str_eq, eq_iff, if◌then◌else◌, differ, arith,
}
use tor_controller.Base.GoMap.{GoMap, lookup, insert, lookup-insert_self, lookup-insert_other}
use tor_controller.Base.GoMap.Sorted.{Sorted, insert-Sorted, lookup-Mem, Mem-lookup}
use tor_controller.Apis.Types.{OnionService, OnionServiceStatus}
use tor_controller.Apis.OnionBalancedServiceUtil.{has_hostname}
use tor_controller.Controllers.OnionBalancedService.Reconcile.{add_backends}
use tor_controller.Agents.OnionBalance.Config.{Instance, instances}

unfoldable or_else : {A : Type 0} → Option A → Option A → Option A
or_else (some a) b = some a
or_else none b = b

or_else_assoc : {A : Type 0} (a b c : Option A) → or_else a (or_else b c) ≡ or_else (or_else a b) c
unfolding or_else
or_else_assoc (some a) b c = refl
or_else_assoc none b c = refl

-- The status of an OnionService of a name.
abbrev named : String → OnionService → Option OnionServiceStatus
named n o = if str_eq o.object_meta.name n then some o.status else none

-- The status of the last OnionService of a name in a list.
unfoldable pub latest : String → List OnionService → Option OnionServiceStatus
unfolding or_else
latest n [] = none
latest n (o ∷ os) = or_else (latest n os) (named n o)

abbrev Statuses : Type 0
Statuses = GoMap OnionServiceStatus

add_backends-Sorted :
    (os : List OnionService) (m : Statuses) → Sorted m → Sorted (add_backends os m)
unfolding add_backends
add_backends-Sorted [] m s = s
add_backends-Sorted (o ∷ os) m s =
    add_backends-Sorted os _ (insert-Sorted o.object_meta.name o.status m s)

lookup-insert :
    (n : String) (o : OnionService) (m : Statuses)
    → lookup n (insert o.object_meta.name o.status m) ≡ or_else (named n o) (lookup n m)
unfolding or_else
lookup-insert n o m = elim (Bool-cases (str_eq o.object_meta.name n)) [
  | inl q ↦ rw q (
      subst (λ z. lookup z (insert o.object_meta.name o.status m) ≡ some o.status)
        ((eq_iff o.object_meta.name n).0 q) (lookup-insert_self m o.object_meta.name o.status))
  | inr q ↦ rw q (lookup-insert_other m o.object_meta.name n o.status q)
]

lookup-add_backends :
    (n : String) (os : List OnionService) (m : Statuses)
    → lookup n (add_backends os m) ≡ or_else (latest n os) (lookup n m)
unfolding add_backends latest
lookup-add_backends n [] m = refl
lookup-add_backends n (o ∷ os) m =
    lookup-add_backends n os (insert o.object_meta.name o.status m)
    ∙ ap (or_else (latest n os)) (lookup-insert n o m)
    ∙ or_else_assoc (latest n os) (named n o) (lookup n m)

or_else-none : {A : Type 0} (a : Option A) → or_else a none ≡ a
unfolding or_else
or_else-none (some a) = refl
or_else-none none = refl

-- An instance stands for a backend with a hostname.
Chosen : GoMap OnionServiceStatus → Instance → Type 0
Chosen m i =
    (s : OnionServiceStatus) × Memᴰ (i.name, s) m × (s.hostname ≡ i.address) × (i.address ≢ "")

named_instance : String × OnionServiceStatus → Instance
named_instance (n, s) = record { name = n; address = s.hostname }

not-false : (b : Bool) → not b ≡ true → b ≡ false
not-false b h = ground arith

hostname-ne : (x : String × OnionServiceStatus) → has_hostname x ≡ true → x.1.hostname ≢ ""
hostname-ne (n, s) h p = differ (not-false (str_eq s.hostname "") h) ((eq_iff s.hostname "").1 p)

kept :
    (x : String × OnionServiceStatus) (m : Statuses)
    → has_hostname x ≡ true
    → instances (x ∷ m) ≡ named_instance x ∷ instances m
unfolding instances named_instance
kept (n, s) m e = rw e refl

skipped :
    (x : String × OnionServiceStatus) (m : Statuses)
    → has_hostname x ≡ false
    → instances (x ∷ m) ≡ instances m
unfolding instances
skipped (n, s) m e = rw e refl

one_more :
    (x : String × OnionServiceStatus) (m : Statuses) (i : Instance) → Chosen m i → Chosen (x ∷ m) i
unfolding Chosen
one_more x m i (s, y, e, d) = (s, Memᴰ.tail y, e, d)

first_one :
    (x : String × OnionServiceStatus) (m : Statuses) (i : Instance)
    → has_hostname x ≡ true
    → i ≡ named_instance x
    → Chosen (x ∷ m) i
unfolding Chosen named_instance
first_one (n, s) m i h e = (
  s,
  Memᴰ.head (ap (λ (z : Instance). (z.name, s)) e),
  ap (λ (z : Instance). z.address) (sym e),
  λ q. hostname-ne (n, s) h (ap (λ (z : Instance). z.address) (sym e) ∙ q),
)

instances-Chosen : (m : Statuses) (i : Instance) → Memᴰ i (instances m) → Chosen m i
unfolding instances
instances-Chosen [] i x = elim x [ ]
instances-Chosen (b ∷ m) i x = elim (Bool-cases (has_hostname b)) [
  | inl h ↦ elim (subst (Memᴰ i) (kept b m h) x) [
    | Memᴰ.head e ↦ first_one b m i h e
    | Memᴰ.tail y ↦ one_more b m i (instances-Chosen m i y)
  ]
  | inr h ↦ one_more b m i (instances-Chosen m i (subst (Memᴰ i) (skipped b m h) x))
]

has_hostname_of :
    (n : String) (s : OnionServiceStatus) → s.hostname ≢ "" → has_hostname (n, s) ≡ true
has_hostname_of n s d = elim (Bool-cases (str_eq s.hostname "")) [
  | inl e ↦ absurd (d ((eq_iff s.hostname "").0 e))
  | inr e ↦ rw e refl
]

later :
    (b : String × OnionServiceStatus) (m : Statuses) (i : Instance)
    → Memᴰ i (instances m)
    → Memᴰ i (instances (b ∷ m))
later b m i x = elim (Bool-cases (has_hostname b)) [
  | inl h ↦ subst (Memᴰ i) (sym (kept b m h)) (Memᴰ.tail x)
  | inr h ↦ subst (Memᴰ i) (sym (skipped b m h)) x
]

Mem-instances :
    (m : Statuses) (n : String) (s : OnionServiceStatus)
    → s.hostname ≢ ""
    → Memᴰ (n, s) m
    → Memᴰ (named_instance (n, s)) (instances m)
Mem-instances [] n s d x = elim x [ ]
Mem-instances (b ∷ m) n s d (Memᴰ.head e) =
    subst (Memᴰ (named_instance (n, s)))
      (sym (kept b m (subst (λ z. has_hostname z ≡ true) e (has_hostname_of n s d))))
      (Memᴰ.head (ap named_instance e))
Mem-instances (b ∷ m) n s d (Memᴰ.tail x) = later b m _ (Mem-instances m n s d x)

-- The agent balances over a name and an address exactly if the address is not empty and is the hostname in the status
-- of the last OnionService of that name that the reconciler lists.
pub instances-add_backends :
    (os : List OnionService) (i : Instance)
    → Memᴰ i (instances (add_backends os [])) ↔ (
        (s : OnionServiceStatus) × (latest i.name os ≡ some s)
        × (s.hostname ≡ i.address)
        × (i.address ≢ ""))
unfolding Chosen named_instance lookup Sorted
instances-add_backends os i = (
  λ x.
      let (s, y, e, d) = instances-Chosen (add_backends os []) i x in
      (
        s,
        sym read ∙ Mem-lookup i.name s (add_backends os []) (add_backends-Sorted os [] tt) y,
        e,
        d,
      ),
  λ (s, l, e, d).
      subst (λ a. Memᴰ (record { name = i.name; address = a }) (instances (add_backends os []))) e
        (Mem-instances (add_backends os []) i.name s (λ q. d (sym e ∙ q))
          (lookup-Mem i.name s (add_backends os []) (read ∙ l))),
)
  where
    read : lookup i.name (add_backends os []) ≡ latest i.name os
    read = lookup-add_backends i.name os [] ∙ or_else-none (latest i.name os)
