-- ===== src/Agents/Queue/Retries.antt =====
-- An agent tries a key again as long as its sync fails.
use tor_controller.Base.{ℕ, ◌≡◌, refl, ◌∙◌, String, Bool, true, false, Option, none, some, inl, inr}
use tor_controller.Base.Exec.{Result, ok, err, panic, Exec}
use tor_controller.Agents.Queue.{
  Queue, QueueLaws, World, handle_err, synced, on_key, on_item, process_next_item, add_func,
  update_func, delete_func,
}

module _ (Q : Queue) {S E : Type 0} (sync : String → Exec S E (Unit {0})) where
  -- A turn of the worker, an event of the informer, or time that passes.
  pub data Step : World Q sync → World Q sync → Type 0 where
    work : (w : World Q sync) → Step w (process_next_item Q sync w).1
    added :
        (s : S) (q : Q.State) (fits : Bool) (key : Result E String)
        → Step (s, q) (s, add_func Q fits key q)
    updated :
        (s : S) (q : Q.State) (fits : Bool) (key : Result E String)
        → Step (s, q) (s, update_func Q fits key q)
    deleted :
        (s : S) (q : Q.State) (fits : Bool) (key : Result E String)
        → Step (s, q) (s, delete_func Q fits key q)
    waited : (s : S) (q q' : Q.State) → Q.elapsed q q' → Step (s, q) (s, q')

  pub data Reach (w : World Q sync) : World Q sync → Type 0 where
    here : Reach w w
    later : {u v : World Q sync} → Reach w u → Step u v → Reach w v

  abbrev pub Uncounted : Q.State → Type 0
  Uncounted q = (k : Q.Key) → Q.num_requeues k q ≡ 0

module _ {Q : Queue} (L : QueueLaws Q) {S E : Type 0} (sync : String → Exec S E (Unit {0})) where
  forget-Uncounted :
      (j : Q.Key) (q : Q.State) → Uncounted Q sync q → Uncounted Q sync (Q.forget j q)
  forget-Uncounted j q h k = elim (L.forget-apart j k q) [ inl z ↦ z | inr e ↦ e ∙ h k ]

  add_after-Uncounted :
      (j : Q.Key) (n : ℕ) (q : Q.State) → Uncounted Q sync q → Uncounted Q sync (Q.add_after j n q)
  add_after-Uncounted j n q h k = L.add_after-keeps j k n q ∙ h k

  handle_err-Uncounted :
      (r : Result E (Unit {0})) (j : Q.Key) (q : Q.State)
      → Uncounted Q sync q
      → Uncounted Q sync (handle_err Q sync r j q)
  unfolding handle_err
  handle_err-Uncounted (ok a) j q h = forget-Uncounted j q h
  handle_err-Uncounted (err e) j q h = rw (h j) (add_after-Uncounted j 3 q h)
  handle_err-Uncounted panic j q h = h

  on_key-Uncounted :
      (t : Option String) (j : Q.Key) (s : S) (q : Q.State)
      → Uncounted Q sync q
      → Uncounted Q sync (on_key Q sync t j (s, q)).1.1
  unfolding on_key synced
  on_key-Uncounted none j s q h k = L.done-keeps j k q ∙ h k
  on_key-Uncounted (some t) j s q h k =
      L.done-keeps j k _ ∙ handle_err-Uncounted (sync t s).0 j q h k

  on_item-Uncounted :
      (s : S) (i : Option Q.Key) (q : Q.State)
      → Uncounted Q sync q
      → Uncounted Q sync (on_item Q sync s (i, q)).1.1
  unfolding on_item
  on_item-Uncounted s none q h = h
  on_item-Uncounted s (some j) q h = on_key-Uncounted (Q.as_text j) j s q h

  add_func-Uncounted :
      (fits : Bool) (r : Result E String) (q : Q.State)
      → Uncounted Q sync q
      → Uncounted Q sync (add_func Q fits r q)
  unfolding add_func
  add_func-Uncounted true r q h = add_after-Uncounted _ 2 q h
  add_func-Uncounted false r q h = h

  update_func-Uncounted :
      (fits : Bool) (r : Result E String) (q : Q.State)
      → Uncounted Q sync q
      → Uncounted Q sync (update_func Q fits r q)
  unfolding update_func
  update_func-Uncounted true (ok key) q h = add_after-Uncounted _ 2 q h
  update_func-Uncounted true (err e) q h = h
  update_func-Uncounted true panic q h = h
  update_func-Uncounted false r q h = h

  delete_func-Uncounted :
      (fits : Bool) (r : Result E String) (q : Q.State)
      → Uncounted Q sync q
      → Uncounted Q sync (delete_func Q fits r q)
  unfolding delete_func
  delete_func-Uncounted true (ok key) q h = add_after-Uncounted _ 2 q h
  delete_func-Uncounted true (err e) q h = h
  delete_func-Uncounted true panic q h = h
  delete_func-Uncounted false r q h = h

  Step-Uncounted :
      {u v : World Q sync} → Step Q sync u v → Uncounted Q sync u.1 → Uncounted Q sync v.1
  unfolding process_next_item
  Step-Uncounted (work (s, q)) h =
      on_item-Uncounted s (Q.get q).0 (Q.get q).1 (λ k. L.get-keeps q k ∙ h k)
  Step-Uncounted (added s q fits key) h = add_func-Uncounted fits key q h
  Step-Uncounted (updated s q fits key) h = update_func-Uncounted fits key q h
  Step-Uncounted (deleted s q fits key) h = delete_func-Uncounted fits key q h
  Step-Uncounted (waited s q q' e) h = λ k. L.elapsed-keeps k q q' e ∙ h k

  -- From a queue that has counted no requeue the count of every key stays zero.
  pub Reach-Uncounted :
      {w v : World Q sync} → Uncounted Q sync w.1 → Reach Q sync w v → Uncounted Q sync v.1
  Reach-Uncounted h here = h
  Reach-Uncounted h (later r st) = Step-Uncounted st (Reach-Uncounted h r)

  -- In every state that an agent reaches from a queue that has counted no requeue, a turn on a key
  -- whose sync fails adds the key again, to be taken after three seconds: no key is ever dropped.
  pub failed_key_added :
      {w : World Q sync} (s : S) (q : Q.State) (key : Q.Key) (text : String) (e : E)
      → Uncounted Q sync w.1
      → Reach Q sync w (s, q)
      → (Q.get q).0 ≡ some key
      → Q.as_text key ≡ some text
      → (sync text s).0 ≡ err e
      → process_next_item Q sync (s, q)
        ≡ (some true, ((sync text s).1, Q.done key (Q.add_after key 3 (Q.get q).1)))
  unfolding process_next_item on_item on_key synced handle_err
  failed_key_added s q key text e fresh r g t f =
      let zero_count : Q.num_requeues key (Q.get q).1 ≡ 0 =
        L.get-keeps q key ∙ Reach-Uncounted fresh r key in
      rw (g, t, f, zero_count) refl
