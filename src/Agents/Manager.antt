-- ===== src/Agents/Manager.antt =====
-- The life of an agent: Manager.Run and signalHandler of agents/tor/local/client.go and
-- agents/onionbalance/local/client.go.
pub mod Signals
pub mod Stuck
use tor_controller.Base.{◌≡◌, String, Bool, true, false, List, [], ◌∷◌, ◌++◌, str_eq, if◌then◌else◌}

pub data Signal : Type 0 where
  sighup sigint sigterm : Signal

-- Whether the handler's goroutine still waits, and whether `stopCh` is closed.
pub record Handler : Type 0 where
  pub waits : Bool
  pub stopped : Bool

abbrev pub closes : Signal → Bool
closes sighup = false
closes sigint = true
closes sigterm = true

-- signal.Notify(signalCh, syscall.SIGTERM, syscall.SIGHUP): the handler gets no other signal.
abbrev pub notified : Signal → Bool
notified sighup = true
notified sigint = false
notified sigterm = true

unfoldable pub received : Bool → Signal → Handler → Handler
received true sig h = record { waits = false; stopped = closes sig }
received false sig h = h

-- One `select`, outside of any loop: the first signal ends the goroutine.
unfoldable pub on_signal : Signal → Handler → Handler
unfolding received
on_signal sig h = received h.waits sig h

unfoldable pub new_handler : Handler
new_handler = record { waits = true; stopped = false }

unfoldable pub on_signals : List Signal → Handler → Handler
unfolding on_signal
on_signals [] h = h
on_signals (sig ∷ sigs) h = on_signals sigs (on_signal sig h)

-- Where the goroutine of Run stands: in the informer's function, which waits for `stopper`; past
-- it, in the watcher's function, which closes `stopper` when it returns; at the wait for `stopCh`;
-- or at the end.
pub data Phase : Type 0 where
  in_informer in_watcher awaiting_stop returned : Phase

pub record Process : Type 0 where
  pub phase : Phase
  pub stopper_closed : Bool
  pub handler : Handler

-- The flags that are missing.
unfoldable pub check_flags : String → String → List String
check_flags name namespace =
    (if str_eq name "" then "-name flag cannot be empty" ∷ [] else [])
    ++ (if str_eq namespace "" then "-namespace flag cannot be empty" ∷ [] else [])

unfoldable pub started : Process
unfolding new_handler
started = record { phase = in_informer; stopper_closed = false; handler = new_handler }

abbrev after_flags : List String → Process
after_flags [] = started
after_flags (e ∷ es) = record started { phase = returned }

-- `Run` after its checks of the flags.
unfoldable pub run : String → String → Process
unfolding started check_flags
run name namespace = after_flags (check_flags name namespace)

-- What the process can do next.
pub data Step : Process → Process → Type 0 where
  signal :
      (p : Process) (sig : Signal)
      → notified sig ≡ true
      → Step p (record p { handler = on_signal sig p.handler })
  informer_returns :
      (p : Process)
      → p.phase ≡ in_informer
      → p.stopper_closed ≡ true
      → Step p (record p { phase = in_watcher })
  watcher_returns :
      (p : Process)
      → p.phase ≡ in_watcher
      → Step p (record p { phase = awaiting_stop; stopper_closed = true })
  run_returns :
      (p : Process)
      → p.phase ≡ awaiting_stop
      → p.handler.stopped ≡ true
      → Step p (record p { phase = returned })

pub data Reach (p : Process) : Process → Type 0 where
  here : Reach p p
  later : {q r : Process} → Reach p q → Step q r → Reach p r
