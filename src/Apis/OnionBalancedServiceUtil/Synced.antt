-- ===== src/Apis/OnionBalancedServiceUtil/Synced.antt =====
-- When IsSynced of apis/tor/v1alpha2/onionbalancedservice_util.go answers true.
use mathlib.Core.List.{Memᴰ}
use tor_controller.Base.{
  ℕ, String, Bool, true, false, not, ◌&&◌, ◌≡◌, ◌≢◌, refl, sym, subst, List, [], ◌∷◌, ◌↔◌, inl, inr,
  Bool-cases, arith, if◌then◌else◌, ◌==◌, str_eq, eq_iff, length, all,
}
use tor_controller.Apis.Types.{OnionBalancedService, OnionServiceStatus}
use tor_controller.Apis.OnionBalancedServiceUtil.{has_hostname, is_synced, get_backends}

abbrev pub Entry : Type 0
Entry = String × OnionServiceStatus

abbrev pub Known : Entry → Type 0
Known (_, backend) = backend.hostname ≢ ""

not-true : (b : Bool) → not b ≡ true → b ≢ true
not-true b h p = ground arith

known : (x : Entry) → has_hostname x ≡ true → Known x
known (_, backend) h p = not-true (str_eq backend.hostname "") h ((eq_iff backend.hostname "").1 p)

Known-back : (x : Entry) → Known x → has_hostname x ≡ true
Known-back (_, backend) k = elim (Bool-cases (str_eq backend.hostname "")) [
  | inl e ↦ absurd (k ((eq_iff backend.hostname "").0 e))
  | inr e ↦ rw e refl
]

both : (a b : Bool) → (a && b) ≡ true → (a ≡ true) × (b ≡ true)
both a b h = ground arith

all-Known : (xs : List Entry) → all has_hostname xs ≡ true → (x : Entry) → Memᴰ x xs → Known x
unfolding all
all-Known [] h x m = elim m [ ]
all-Known (y ∷ ys) h x (Memᴰ.head e) = subst Known (sym e) (known y (both (has_hostname y) _ h).0)
all-Known (y ∷ ys) h x (Memᴰ.tail m) = all-Known ys (both (has_hostname y) _ h).1 x m

all-Known_back :
    (xs : List Entry) → ((x : Entry) → Memᴰ x xs → Known x) → all has_hostname xs ≡ true
unfolding all
all-Known_back [] k = refl
all-Known_back (y ∷ ys) k =
    rw (Known-back y (k y (Memᴰ.head refl)), all-Known_back ys (λ x m. k x (Memᴰ.tail m))) refl

split : (a b : Bool) → (if a then b else false) ≡ true → (a ≡ true) × (b ≡ true)
split a b h = ground arith

same_number : (a b : ℕ) → (a == b) ≡ true → a ≡ b
same_number a b h = ground arith

-- An OnionBalancedService is synchronised exactly when its status has as many backends as its spec
-- asks for and each of them has a hostname.
pub is_synced_iff :
    (s : OnionBalancedService)
    → is_synced s ≡ true ↔ (
        (length s.status.backends ≡ s.spec.backends)
        × ((x : Entry) → Memᴰ x s.status.backends → Known x))
unfolding is_synced get_backends
is_synced_iff s = (forward, back)
  where
    forward :
        is_synced s ≡ true
        → (length s.status.backends ≡ s.spec.backends)
          × ((x : Entry) → Memᴰ x s.status.backends → Known x)
    forward h =
        let (n, k) = split (length s.status.backends == s.spec.backends) _ h in
        (same_number _ _ n, all-Known s.status.backends k)

    back :
        (length s.status.backends ≡ s.spec.backends)
          × ((x : Entry) → Memᴰ x s.status.backends → Known x)
        → is_synced s ≡ true
    back (n, k) =
        let n' : (length s.status.backends == s.spec.backends) ≡ true = ground arith in
        rw n' (all-Known_back s.status.backends k)
