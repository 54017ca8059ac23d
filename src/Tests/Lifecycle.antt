-- ===== src/Tests/Lifecycle.antt =====
-- An agent's queue, signals and daemons.
use tor_controller.Base.{
  ℕ, ◌≤◌, String, Bool, true, false, Option, none, some, List, [], ◌∷◌, ◌++◌, ◌≡◌, ◌≢◌, ap, sym,
  refl, ◌⊎◌, inl, inr, str_eq, eq_iff, if◌then◌else◌, arith,
}
use tor_controller.Base.Exec.{Exec, raise}
use tor_controller.Agents.Daemon.{
  Daemon, new_daemon, balance_reload, is_running, start, stop, signal, after_signal, wait_for,
  resume, unstarted, unwaited, creates, starts,
}
use tor_controller.Agents.Daemon.Loops.{
  Run, new, reloads, resumes, works, daemon_of, reloads-le-loops,
}
use tor_controller.Agents.Manager.{run, returned, here}
use tor_controller.Agents.Manager.Stuck.{run-ne-returned}
use tor_controller.Agents.Tor.Controller.Paths.{unequal}
use tor_controller.Agents.Queue.{Queue, QueueLaws, process_next_item}
use tor_controller.Agents.Queue.Retries.{here, failed_key_added}

run-ne-returned_example : (run "hub" "apps").phase ≢ returned
run-ne-returned_example =
    run-ne-returned "hub" "apps" (run "hub" "apps") (unequal "hub" "" refl) (unequal "apps" "" refl)
      here

-- A daemon with a loop that has started its process.
abbrev started : Daemon
started = record { cmd = some unwaited; loops = 1; hups = 0 }

-- Reload begins the first loop; its second call waits for the process and then begins another.
twice : Run 2 (resume (record started { hups = 1 }))
unfolding balance_reload new_daemon is_running stop signal after_signal wait_for resume start
twice = resumes (
    reloads (
      works (works (reloads new) (creates (record new_daemon { loops = 1 }) (omega arith)))
        (starts (record new_daemon { loops = 1; cmd = some unstarted }) (omega arith) refl)))

reloads-le-loops_example : 2 ≤ (daemon_of (resume (record started { hups = 1 }))).loops
reloads-le-loops_example = reloads-le-loops twice

-- Keys that wait, and how often each was requeued.
record Waiting : Type 0 where
  keys : List String
  failures : String → ℕ

abbrev take_first : List String → Option String
take_first [] = none
take_first (k ∷ ks) = some k

abbrev queue : Queue
queue = record {
  State = Waiting;
  Key = String;
  as_text = λ k. some k;
  of_text = λ k. k;
  get = λ w. (take_first w.keys, w);
  done = λ k w. w;
  forget = λ k w. record w { failures = λ j. if str_eq k j then 0 else w.failures j };
  num_requeues = λ k w. w.failures k;
  add_after = λ k n w. record w { keys = w.keys ++ k ∷ [] };
  elapsed = λ w v. w ≡ v;
}

chosen : (b : Bool) (n : ℕ) → ((if b then 0 else n) ≡ 0) ⊎ ((if b then 0 else n) ≡ n)
chosen true n = inl refl
chosen false n = inr refl

reset : (k : String) (n : ℕ) → (if str_eq k k then 0 else n) ≡ 0
reset k n = let e : str_eq k k ≡ true = (eq_iff k k).1 refl in rw e

abbrev queue_laws : QueueLaws queue
queue_laws = record {
  get-keeps = λ w k. refl;
  done-keeps = λ j k w. refl;
  add_after-keeps = λ j k n w. refl;
  elapsed-keeps = λ k w v e. ap (λ (x : Waiting). x.failures k) (sym e);
  forget-resets = λ k w. reset k (w.failures k);
  forget-apart = λ j k w. chosen (str_eq j k) (w.failures k);
}

abbrev one_key : Waiting
one_key = record { keys = "apps/hidden" ∷ []; failures = λ k. 0 }

abbrev failing : String → Exec (Unit {0}) String (Unit {0})
failing key = raise "reading torfile"

failed_key_added_example :
    process_next_item queue failing (tt, one_key)
    ≡ (some true, (tt, record one_key { keys = "apps/hidden" ∷ "apps/hidden" ∷ [] }))
unfolding raise
failed_key_added_example =
    failed_key_added queue_laws failing tt one_key "apps/hidden" "apps/hidden" "reading torfile"
      (λ k. refl) here refl refl refl
