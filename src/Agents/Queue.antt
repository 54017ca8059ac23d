-- ===== src/Agents/Queue.antt =====
-- The work queue of an agent: processNextItem and handleErr of agents/tor/local/controller.go and
-- agents/onionbalance/local/controller.go, and the handlers of client.go that fill the queue.
pub mod Retries
use tor_controller.Base.{
  ℕ, ◌≡◌, String, Bool, true, false, Option, none, some, ltb, if◌then◌else◌, ◌⊎◌,
}
use tor_controller.Base.Exec.{Result, ok, err, panic, Exec}

-- A rate limiting work queue of client-go. A key is any value; `as_text` is the conversion
-- `key.(string)`. `elapsed` relates the states before and after time has passed.
pub record Queue : Type 1 where
  pub State : Type 0
  pub Key : Type 0
  pub as_text : Key → Option String
  pub of_text : String → Key
  pub get : State → Option Key × State
  pub done : Key → State → State
  pub forget : Key → State → State
  pub num_requeues : Key → State → ℕ
  pub add_after : Key → ℕ → State → State
  pub elapsed : State → State → Type 0

-- AddRateLimited alone, which the agents do not call, counts a key's requeues; Forget sets the
-- count to zero.
pub record QueueLaws (Q : Queue) : Type 0 where
  pub get-keeps : (s : Q.State) (k : Q.Key) → Q.num_requeues k (Q.get s).1 ≡ Q.num_requeues k s
  pub done-keeps : (j k : Q.Key) (s : Q.State) → Q.num_requeues k (Q.done j s) ≡ Q.num_requeues k s
  pub add_after-keeps :
      (j k : Q.Key) (n : ℕ) (s : Q.State)
      → Q.num_requeues k (Q.add_after j n s) ≡ Q.num_requeues k s
  pub elapsed-keeps :
      (k : Q.Key) (s t : Q.State) → Q.elapsed s t → Q.num_requeues k t ≡ Q.num_requeues k s
  pub forget-resets : (k : Q.Key) (s : Q.State) → Q.num_requeues k (Q.forget k s) ≡ 0
  pub forget-apart :
      (j k : Q.Key) (s : Q.State)
      → (Q.num_requeues k (Q.forget j s) ≡ 0)
        ⊎ (Q.num_requeues k (Q.forget j s) ≡ Q.num_requeues k s)

module _ (Q : Queue) {S E : Type 0} (sync : String → Exec S E (Unit {0})) where
  -- The agent's own state and that of its queue.
  abbrev pub World : Type 0
  World = S × Q.State

  -- `if c.queue.NumRequeues(key) < 5`
  unfoldable pub handle_err : Result E (Unit {0}) → Q.Key → Q.State → Q.State
  handle_err (ok a) key q = Q.forget key q
  handle_err (err e) key q =
      if ltb (Q.num_requeues key q) 5 then Q.add_after key 3 q else Q.forget key q
  handle_err panic key q = q

  -- What processNextItem returns; `none` is a panic of sync. `Done` is deferred.
  abbrev pub answer : Result E (Unit {0}) → Option Bool
  answer (ok a) = some true
  answer (err e) = some true
  answer panic = none

  unfoldable pub synced : Q.Key → (Result E (Unit {0})) × S → Q.State → Option Bool × World
  unfolding handle_err
  synced key (r, s) q = (answer r, (s, Q.done key (handle_err r key q)))

  unfoldable pub on_key : Option String → Q.Key → World → Option Bool × World
  unfolding synced
  on_key none key (s, q) = (some false, (s, Q.done key q))
  on_key (some text) key (s, q) = synced key (sync text s) q

  unfoldable pub on_item : S → Option Q.Key × Q.State → Option Bool × World
  unfolding on_key
  on_item s (none, q) = (some false, (s, q))
  on_item s (some key, q) = on_key (Q.as_text key) key (s, q)

  unfoldable pub process_next_item : World → Option Bool × World
  unfolding on_item
  process_next_item (s, q) = on_item s (Q.get q)

-- The handlers of the informer. The first argument tells whether the object was converted; the
-- second is what MetaNamespaceKeyFunc answers, whose key is empty when it fails.
module _ (Q : Queue) {E : Type 0} where
  abbrev key_or_empty : Result E String → String
  key_or_empty (ok key) = key
  key_or_empty (err e) = ""
  key_or_empty panic = ""

  -- An error of the key is logged, and the key is added all the same.
  unfoldable pub add_func : Bool → Result E String → Q.State → Q.State
  add_func true key q = Q.add_after (Q.of_text (key_or_empty key)) 2 q
  add_func false key q = q

  unfoldable pub update_func : Bool → Result E String → Q.State → Q.State
  update_func true (ok key) q = Q.add_after (Q.of_text key) 2 q
  update_func true (err e) q = q
  update_func true panic q = q
  update_func false key q = q

  unfoldable pub delete_func : Bool → Result E String → Q.State → Q.State
  delete_func true (ok key) q = Q.add_after (Q.of_text key) 2 q
  delete_func true (err e) q = q
  delete_func true panic q = q
  delete_func false key q = q
