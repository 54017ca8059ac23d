-- ===== src/Agents/Daemon/Loops.antt =====
-- How many loops supervise the onionbalance daemon.
use tor_controller.Base.{ℕ, suc, ◌≤◌, ◌≡◌, refl, Option, none, some, arith, Bool-cases, inl, inr}
use tor_controller.Agents.Daemon.{
  Status, unstarted, unwaited, exited, killed, Daemon, Work, creates, starts, ends, start,
  ensure_running, Reload, returned, waiting, crashed, resume, wait_for, signal, after_signal, stop,
  is_running, balance_reload, new_daemon,
}

-- The daemon at the point where a call of Reload stands.
abbrev pub daemon_of : Reload → Daemon
daemon_of (returned d) = d
daemon_of (waiting d) = d
daemon_of (crashed d) = d

-- The number of calls that have returned, with one more call.
abbrev pub count : ℕ → Reload → ℕ
count n (returned d) = suc n
count n (waiting d) = n
count n (crashed d) = n

-- A run of the onionbalance agent's daemon, with the number of calls of Reload that have returned and the point where
-- the last one stands. The worker makes one call at a time. A call that waits can go on at any point here, and does so
-- in the program when the process that it waits for has ended; after a panic the agent is gone.
pub data Run : ℕ → Reload → Type 0 where
  new : Run 0 (returned new_daemon)
  reloads :
      {n : ℕ} {d : Daemon}
      → Run n (returned d)
      → Run (count n (balance_reload d)) (balance_reload d)
  resumes : {n : ℕ} {d : Daemon} → Run n (waiting d) → Run (suc n) (resume d)
  ensures : {n : ℕ} {d : Daemon} → Run n (returned d) → Run n (returned (ensure_running d))
  works : {n : ℕ} {d e : Daemon} → Run n (returned d) → Work d e → Run n (returned e)
  meanwhile : {n : ℕ} {d e : Daemon} → Run n (waiting d) → Work d e → Run n (waiting e)

-- One call of Reload keeps as many loops as calls that have returned.
stop-count :
    (c : Option Status) (n : ℕ) (d : Daemon)
    → n ≤ d.loops
    → count n (stop c d) ≤ (daemon_of (stop c d)).loops
unfolding stop signal after_signal wait_for resume start
stop-count none n d h = h
stop-count (some unstarted) n d h = h
stop-count (some unwaited) n d h = h
stop-count (some exited) n d h = omega (arith, h)
stop-count (some killed) n d h = omega (arith, h)

balance_reload-count :
    (n : ℕ) (d : Daemon)
    → n ≤ d.loops
    → count n (balance_reload d) ≤ (daemon_of (balance_reload d)).loops
unfolding balance_reload resume start
balance_reload-count n d h = elim (Bool-cases (is_running d)) [
  | inl e ↦ rw e (stop-count d.cmd n d h)
  | inr e ↦ rw e (omega (arith, h))
]

ensure_running-loops : (d : Daemon) → d.loops ≤ (ensure_running d).loops
unfolding ensure_running start
ensure_running-loops d = ground arith

Work-loops : {d e : Daemon} → Work d e → e.loops ≡ d.loops
Work-loops (creates d h) = refl
Work-loops (starts d h c) = refl
Work-loops (ends d s h c) = refl

-- There are never fewer loops that start the onionbalance daemon than calls of Reload that have returned: each such call
-- has begun a loop, whether or not the daemon ran, and no loop ends.
pub reloads-le-loops : {n : ℕ} {r : Reload} → Run n r → n ≤ (daemon_of r).loops
unfolding new_daemon resume start
reloads-le-loops new = omega arith
reloads-le-loops (reloads {n} {d} r) = balance_reload-count n d (reloads-le-loops r)
reloads-le-loops (resumes r) = omega (arith, reloads-le-loops r)
reloads-le-loops (ensures {n} {d} r) = omega (arith, ensure_running-loops d, reloads-le-loops r)
reloads-le-loops (works r w) = omega (arith, Work-loops w, reloads-le-loops r)
reloads-le-loops (meanwhile r w) = omega (arith, Work-loops w, reloads-le-loops r)
