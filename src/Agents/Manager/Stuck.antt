-- ===== src/Agents/Manager/Stuck.antt =====
-- An agent whose flags are set never comes to the end of Run.
use tor_controller.Base.{◌≡◌, ◌≢◌, refl, String, false, inl, inr, Bool-cases, str_eq, eq_iff}
use tor_controller.Agents.Manager.{
  Process, Step, Reach, in_informer, returned, here, later, signal, informer_returns,
  watcher_returns, run_returns, check_flags, started, run,
}

pub record Watches (p : Process) : Type 0 where
  pub informs : p.phase ≡ in_informer
  pub opens : p.stopper_closed ≡ false

Step-Watches : {p q : Process} → Step p q → Watches p → Watches q
Step-Watches (signal p sig n) w = record { informs = w.informs; opens = w.opens }
Step-Watches (informer_returns p e c) w = let o = w.opens in absurd (cc)
Step-Watches (watcher_returns p e) w = let i = w.informs in absurd (cc)
Step-Watches (run_returns p e c) w = let i = w.informs in absurd (cc)

Reach-Watches : {p q : Process} → Watches p → Reach p q → Watches q
Reach-Watches w here = w
Reach-Watches w (later r st) = Step-Watches st (Reach-Watches w r)

run-Watches : (name namespace : String) → name ≢ "" → namespace ≢ "" → Watches (run name namespace)
unfolding run started check_flags
run-Watches name namespace n m = elim (Bool-cases (str_eq name "")) [
  | inl e ↦ absurd (n ((eq_iff name "").0 e))
  | inr e ↦ elim (Bool-cases (str_eq namespace "")) [
    | inl f ↦ absurd (m ((eq_iff namespace "").0 f))
    | inr f ↦ rw (e, f) (record { informs = refl; opens = refl })
  ]
]

-- An agent with both flags set stays in the informer's function, whatever signals it receives, and
-- so never returns from Run.
pub run-ne-returned :
    (name namespace : String) (p : Process)
    → name ≢ ""
    → namespace ≢ ""
    → Reach (run name namespace) p
    → p.phase ≢ returned
run-ne-returned name namespace p n m r =
    let i = (Reach-Watches (run-Watches name namespace n m) r).informs in λ h. cc
