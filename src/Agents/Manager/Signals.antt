-- ===== src/Agents/Manager/Signals.antt =====
-- Which signals an agent heeds.
use tor_controller.Base.{◌≡◌, refl, Bool, false, List, [], ◌∷◌}
use tor_controller.Agents.Manager.{Signal, closes, received, on_signals, new_handler}

ended :
    (sigs : List Signal) (b : Bool)
    → on_signals sigs (record { waits = false; stopped = b })
      ≡ record { waits = false; stopped = b }
unfolding on_signals received
ended [] b = refl
ended (sig ∷ sigs) b = ended sigs b

-- Whatever signals follow, the first one decides alone whether the agent is asked to stop: after a
-- SIGHUP neither SIGINT nor SIGTERM is heeded.
pub first_signal_decides :
    (sig : Signal) (sigs : List Signal)
    → on_signals (sig ∷ sigs) new_handler ≡ record { waits = false; stopped = closes sig }
unfolding on_signals received new_handler
first_signal_decides sig sigs = ended sigs (closes sig)
