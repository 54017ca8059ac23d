-- ===== src/Kube/Memory/Client.antt =====
-- The client of the cluster in memory, with the laws that it meets.
use mathlib.Core.Option.{some-ne-none}
use tor_controller.Base.{eq_iff}
use tor_controller.Kube.Memory.{Kind-discrete, Name-discrete}
use tor_controller.Base.{
  ℕ, zero, suc, String, Bool, true, false, ◌≡◌, refl, ap, sym, subst, ◌∙◌, ◌≢◌, Option, none, some,
  List, [], ◌∷◌, arith, if◌then◌else◌, str_eq,
}
use tor_controller.Base.Exec.{Result, ok, err, Exec}
use tor_controller.Kube.Types.{NamespacedName, OwnerReference}
use tor_controller.Kube.Client.{Kind, Object, key_of, Kube, ErrorLaws, OwnerLaws, ServerLaws, Apart}
use tor_controller.Kube.Memory.{
  Store, MemoryError, missing, conflict, message, stored, write, stored-key, stored-write_self,
  stored-write_apart,
}

str_eq_self : (u : String) → (if true then str_eq u u else false) ≡ true
str_eq_self u = (eq_iff u u).1 refl

abbrev is_missing : MemoryError → Bool
is_missing missing = true
is_missing conflict = false
is_missing (message m) = false

abbrev ignore : Option MemoryError → Option MemoryError
ignore none = none
ignore (some missing) = none
ignore (some conflict) = some conflict
ignore (some (message m)) = some (message m)

abbrev wrap : Option MemoryError → String → Option MemoryError
wrap none m = none
wrap (some e) m = some e

abbrev controlled_by : List OwnerReference → String → Bool
controlled_by [] uid = false
controlled_by (r ∷ rs) uid =
    let rest = controlled_by rs uid in if r.controller then str_eq r.uid uid else rest

abbrev pub answer : {A : Type 0} → Option A → Result MemoryError A
answer none = err missing
answer (some a) = ok a

abbrev pub read : (k : Kind) → NamespacedName → Exec Store MemoryError (Object k)
read k n s = (answer (stored s k n), s)

abbrev created :
    (k : Kind) → Object k → Store → Option (Object k) → Result MemoryError (Object k) × Store
created k o s none = (ok o, write k (key_of k o) (some o) s)
created k o s (some x) = (err conflict, s)

abbrev updated :
    (k : Kind) → Object k → Store → Option (Object k) → Result MemoryError (Object k) × Store
updated k o s none = (err missing, s)
updated k o s (some x) = (ok o, write k (key_of k o) (some o) s)

abbrev bytes_of : ℕ → List ℕ
bytes_of zero = []
bytes_of (suc n) = 7 ∷ bytes_of n

abbrev pub memory : Kube
memory = record {
  State = Store;
  Error = MemoryError;
  is_not_found = is_missing;
  ignore_not_found = ignore;
  wrap = wrap;
  new_error = message;
  is_controlled_by = λ m owner. controlled_by m.owner_references owner.uid;
  new_controller_ref = λ owner g. record {
    api_version = g.version;
    kind = g.kind;
    name = owner.name;
    uid = owner.uid;
    controller = true;
    block_owner_deletion = true;
  };
  get = read;
  create = λ k o s. created k o s (stored s k (key_of k o));
  update = λ k o s. updated k o s (stored s k (key_of k o));
  delete = λ k o s. (ok tt, write k (key_of k o) none s);
  update_status = λ k o s. updated k o s (stored s k (key_of k o));
  list_onion_services = λ ns s. (ok [], s);
  generate_key = λ s. (ok ("public", "private"), s);
  onion_service_id = λ key. key;
  generate_password = λ c s. (some "password", s);
  read_random = λ n s. (some (bytes_of n), s);
  sha1 = λ b. bytes_of 20;
  same_nils = λ k a b. true;
}

pub memory-ErrorLaws : ErrorLaws memory
memory-ErrorLaws = record {
  wrap-nil = λ m. refl;
  wrap-some = λ e m p. cc;
  ignore-missing = λ e h. ground arith;
  ignore-other = λ e h. ground arith;
}

pub memory-OwnerLaws : OwnerLaws memory
memory-OwnerLaws = record { controls_own = λ m owner g h. rw h (str_eq_self owner.uid) }

pub answer-ok : {A : Type 0} (v : Option A) (a : A) → answer v ≡ ok a → v ≡ some a
answer-ok none a h = absurd (cc)
answer-ok (some x) a h = ap some (let p : x ≡ a = cc in p)

pub answer-missing : {A : Type 0} (v : Option A) (e : MemoryError) → answer v ≡ err e → v ≡ none
answer-missing none e h = refl
answer-missing (some x) e h = absurd (cc)

-- A write to a place that is free keeps what stands elsewhere.
apart_of_free :
    (s : Store) (k : Kind) (m : NamespacedName) (j : Kind) (n : NamespacedName) (x : Object j)
    → stored s k m ≡ none
    → stored s j n ≡ some x
    → ¬ ((k ≡ j) × (m ≡ n))
apart_of_free s k m j n x f h (p, q) = absurd (
    some-ne-none x
      (sym h ∙ subst (λ i. stored s i n ≡ none) p (subst (λ z. stored s k z ≡ none) q f)))

pub created-keeps :
    (k : Kind) (o : Object k) (s : Store) (j : Kind) (n : NamespacedName) (x : Object j)
    → stored s j n ≡ some x
    → (v : Option (Object k)) → stored s k (key_of k o) ≡ v
    → stored (created k o s v).1 j n ≡ some x
created-keeps k o s j n x h none e =
    stored-write_apart k (key_of k o) (some o) s j n (apart_of_free s k (key_of k o) j n x e h) ∙ h
created-keeps k o s j n x h (some y) e = h

pub ok-same : {E A : Type 0} (a b : A) → ◌≡◌ {A = Result E A} (ok a) (ok b) → a ≡ b
ok-same a b h = cc

pub created-stored :
    (k : Kind) (o o' : Object k) (s : Store) (v : Option (Object k))
    → (created k o s v).0 ≡ ok o'
    → (stored (created k o s v).1 k (key_of k o) ≡ some o') × (o ≡ o')
created-stored k o o' s none h =
    let p : o ≡ o' = ok-same o o' h in (stored-write_self k o s ∙ ap some p, p)
created-stored k o o' s (some y) h = absurd (cc)

pub updated-Apart :
    (k : Kind) (o : Object k) (s : Store) (j : Kind) (n : NamespacedName)
    → Apart memory k (key_of k o) j n
    → (v : Option (Object k)) → stored (updated k o s v).1 j n ≡ stored s j n
updated-Apart k o s j n a none = refl
updated-Apart k o s j n a (some y) = stored-write_apart k (key_of k o) (some o) s j n a

same_place :
    (t : Store) (k : Kind) (m : NamespacedName) (j : Kind) (n : NamespacedName)
    → stored t k m ≢ none
    → k ≡ j
    → m ≡ n
    → stored t j n ≢ none
same_place t k m j n h p q =
    subst (λ i. stored t i n ≢ none) p (subst (λ z. stored t k z ≢ none) q h)

write-present :
    (k : Kind) (o : Object k) (s : Store) (j : Kind) (n : NamespacedName)
    → stored s j n ≢ none
    → Dec (k ≡ j)
    → Dec (key_of k o ≡ n)
    → stored (write k (key_of k o) (some o) s) j n ≢ none
write-present k o s j n h (yes p) (yes q) =
    same_place (write k (key_of k o) (some o) s) k (key_of k o) j n
      (λ e. some-ne-none o (sym (stored-write_self k o s) ∙ e)) p q
write-present k o s j n h (yes p) (no q) =
    rw (stored-write_apart k (key_of k o) (some o) s j n (λ (a, b). q b)) h
write-present k o s j n h (no p) d =
    rw (stored-write_apart k (key_of k o) (some o) s j n (λ (a, b). p a)) h

pub updated-present :
    (k : Kind) (o : Object k) (s : Store) (j : Kind) (n : NamespacedName)
    → stored s j n ≢ none
    → (v : Option (Object k)) → stored (updated k o s v).1 j n ≢ none
updated-present k o s j n h none = h
updated-present k o s j n h (some y) =
    write-present k o s j n h (Kind-discrete k j) (Name-discrete (key_of k o) n)

-- The cluster in memory meets the laws of the API server.
unfoldable pub memory-ServerLaws : ServerLaws memory
memory-ServerLaws = record {
  contents = stored;
  stored-key = stored-key;
  get-keeps = λ k n s. refl;
  get-found = λ k n s o h. answer-ok (stored s k n) o h;
  get-missing = λ k n s e h m. answer-missing (stored s k n) e h;
  create-keeps = λ k o s j m x h. created-keeps k o s j m x h (stored s k (key_of k o)) refl;
  create-stored = λ k o o' s h. (created-stored k o o' s (stored s k (key_of k o)) h).0;
  create-key =
      λ k o o' s h. ap (key_of k) (sym (created-stored k o o' s (stored s k (key_of k o)) h).1);
  update-apart = λ k o s j m a. updated-Apart k o s j m a (stored s k (key_of k o));
  update-present = λ k o s j m h. updated-present k o s j m h (stored s k (key_of k o));
  delete-apart = λ k o s j m a. stored-write_apart k (key_of k o) none s j m a;
  update_status-apart = λ k o s j m a. updated-Apart k o s j m a (stored s k (key_of k o));
  update_status-present = λ k o s j m h. updated-present k o s j m h (stored s k (key_of k o));
  list-keeps = λ ns s. refl;
  generate_key-keeps = λ s. refl;
  generate_password-keeps = λ c s. refl;
  read_random-keeps = λ n s. refl;
}
