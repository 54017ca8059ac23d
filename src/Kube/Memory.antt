-- ===== src/Kube/Memory.antt =====
-- A cluster in memory: a client that meets the laws of `Client`, for runs of the controllers. It
-- stores an object under its own name, refuses to create what is there and to change what is not.
pub mod Client
use mathlib.Core.Path.{subst_refl, subst, ◌∙◌, sym}
use mathlib.Core.Option.{some-injective}
use tor_controller.Base.{
  ℕ, String, Bool, true, false, ◌&&◌, ◌≡◌, refl, ap, ◌≢◌, Option, none, some, List, [], ◌∷◌, arith,
  if◌then◌else◌, str_eq, string_discrete, any,
}
use tor_controller.Base.Exec.{Result, ok, err, Exec}
use tor_controller.Kube.Types.{NamespacedName, GroupVersionKind, OwnerReference, ObjectMeta}
use tor_controller.Kube.Client.{
  Kind, Object, meta, key_of, GeneratorConfig, Kube, ErrorLaws, OwnerLaws, ServerLaws, Apart,
}
use tor_controller.Apis.Types.{OnionService}

pub data MemoryError : Type 0 where
  missing conflict : MemoryError
  message : String → MemoryError

pub Kind-discrete : Discrete Kind
Kind-discrete = hlevel

Kind-set : IsSet Kind
Kind-set = hlevel

pub Name-discrete : Discrete NamespacedName
Name-discrete = hlevel string_discrete

-- One table for each kind.
abbrev pub Store : Type 0
Store = (k : Kind) → NamespacedName → Option (Object k)

-- An entry counts where its name says that it stands.
abbrev checked_place :
    (k : Kind) (n : NamespacedName) (o : Object k) → Dec (key_of k o ≡ n) → Option (Object k)
checked_place k n o (yes _) = some o
checked_place k n o (no _) = none

abbrev entry : (k : Kind) (n : NamespacedName) → Option (Object k) → Option (Object k)
entry k n none = none
entry k n (some o) = checked_place k n o (Name-discrete (key_of k o) n)

unfoldable pub stored : Store → Store
stored s k n = entry k n (s k n)

-- The value that a write leaves at a place.
abbrev replaced :
    (k : Kind) (m : NamespacedName) (v : Option (Object k)) (j : Kind) (n : NamespacedName)
    → Option (Object j)
    → Dec (k ≡ j)
    → Dec (m ≡ n)
    → Option (Object j)
replaced k m v j n old (yes p) (yes q) = subst (λ i. Option (Object i)) p v
replaced k m v j n old (yes p) (no q) = old
replaced k m v j n old (no p) q = old

pub write : (k : Kind) → NamespacedName → Option (Object k) → Store → Store
write k m v s j n = replaced k m v j n (s j n) (Kind-discrete k j) (Name-discrete m n)

write_self :
    (k : Kind) (m : NamespacedName) (v : Option (Object k)) (s : Store) → write k m v s k m ≡ v
unfolding write
write_self k m v s = go (Kind-discrete k k) (Name-discrete m m)
  where
    go : (d : Dec (k ≡ k)) (e : Dec (m ≡ m)) → replaced k m v k m (s k m) d e ≡ v
    go (yes p) (yes q) =
        ap (λ (r : k ≡ k). subst (λ i. Option (Object i)) r v) (Kind-set k k p refl)
        ∙ subst_refl (λ i. Option (Object i)) v
    go (yes p) (no q) = absurd (q refl)
    go (no p) e = absurd (p refl)

write-apart :
    (k : Kind) (m : NamespacedName) (v : Option (Object k)) (s : Store) (j : Kind)
    (n : NamespacedName)
    → ¬ ((k ≡ j) × (m ≡ n))
    → write k m v s j n ≡ s j n
unfolding write
write-apart k m v s j n apart = go (Kind-discrete k j) (Name-discrete m n)
  where
    go : (d : Dec (k ≡ j)) (e : Dec (m ≡ n)) → replaced k m v j n (s j n) d e ≡ s j n
    go (yes p) (yes q) = absurd (apart (p, q))
    go (yes p) (no q) = refl
    go (no p) e = refl

entry-own : (k : Kind) (o : Object k) → entry k (key_of k o) (some o) ≡ some o
entry-own k o = go (Name-discrete (key_of k o) (key_of k o))
  where
    go : (d : Dec (key_of k o ≡ key_of k o)) → checked_place k (key_of k o) o d ≡ some o
    go (yes p) = refl
    go (no p) = absurd (p refl)

pub stored-key :
    (s : Store) (k : Kind) (n : NamespacedName) (o : Object k)
    → stored s k n ≡ some o
    → key_of k o ≡ n
unfolding stored
stored-key s k n o h = go (s k n) h
  where
    at : (x : Object k) (d : Dec (key_of k x ≡ n)) → checked_place k n x d ≡ some o → key_of k o ≡ n
    at x (yes p) e = ap (key_of k) (sym (some-injective x o e)) ∙ p
    at x (no p) e = cc

    go : (v : Option (Object k)) → entry k n v ≡ some o → key_of k o ≡ n
    go none e = cc
    go (some x) e = at x (Name-discrete (key_of k x) n) e

pub stored-write_self :
    (k : Kind) (o : Object k) (s : Store)
    → stored (write k (key_of k o) (some o) s) k (key_of k o) ≡ some o
unfolding stored
stored-write_self k o s =
    ap (entry k (key_of k o)) (write_self k (key_of k o) (some o) s) ∙ entry-own k o

pub stored-write_apart :
    (k : Kind) (m : NamespacedName) (v : Option (Object k)) (s : Store) (j : Kind)
    (n : NamespacedName)
    → ¬ ((k ≡ j) × (m ≡ n))
    → stored (write k m v s) j n ≡ stored s j n
unfolding stored
stored-write_apart k m v s j n apart = ap (entry j n) (write-apart k m v s j n apart)

-- What a table has under an object's own name is stored.
pub stored-own :
    (s : Store) (k : Kind) (o : Object k)
    → s k (key_of k o) ≡ some o
    → stored s k (key_of k o) ≡ some o
unfolding stored
stored-own s k o h = ap (entry k (key_of k o)) h ∙ entry-own k o
