-- ===== src/Agents/Daemon.antt =====
-- The supervision of a daemon: agents/tor/tordaemon/daemon.go and
-- agents/onionbalance/onionbalancedaemon/daemon.go. What os/exec does is that of the Go release that the images are built
-- with: Wait blocks while the process runs, also beside another Wait, and answers at once if Start failed or the command
-- has a ProcessState. A function is one step, up to the wait of Reload, which is a step of its own: the races of a
-- function with the loops on the field cmd are not modelled.
pub mod Loops
use tor_controller.Base.{ℕ, suc, ◌<◌, ◌≡◌, Bool, true, false, Option, none, some, if◌then◌else◌}

-- What is known of a command: it has no Process (its Start is yet to be called, or failed), it has one but no
-- ProcessState, it exited by itself, or a signal ended it.
pub data Status : Type 0 where
  unstarted unwaited exited killed : Status

-- The command that a loop assigned last, the number of loops that Start has begun, and the number
-- of calls of Process.Signal.
pub record Daemon : Type 0 where
  pub cmd : Option Status
  pub loops : ℕ
  pub hups : ℕ

-- t.cmd.ProcessState != nil && t.cmd.ProcessState.Exited()
abbrev has_exited : Status → Bool
has_exited unstarted = false
has_exited unwaited = false
has_exited exited = true
has_exited killed = false

-- A loop in a goroutine of its own.
unfoldable pub start : Daemon → Daemon
start d = record d { loops = suc d.loops }

-- t.cmd.Process.Signal(syscall.SIGHUP), whose error is logged; without a Process it panics.
unfoldable pub signal : Status → Daemon → Option Daemon
signal unstarted d = none
signal unwaited d = some (record d { hups = suc d.hups })
signal exited d = some (record d { hups = suc d.hups })
signal killed d = some (record d { hups = suc d.hups })

-- Tor.Reload, which is none where it panics.
unfoldable pub reload_tor : Option Status → Daemon → Option Daemon
unfolding start signal
reload_tor none d = some (start d)
reload_tor (some s) d = if has_exited s then some (start d) else signal s d

unfoldable pub tor_reload : Daemon → Option Daemon
unfolding reload_tor
tor_reload d = reload_tor d.cmd d

-- OnionBalance.IsRunning
abbrev running : Option Status → Bool
running none = false
running (some s) = if has_exited s then false else true

unfoldable pub is_running : Daemon → Bool
is_running d = running d.cmd

unfoldable pub ensure_running : Daemon → Daemon
unfolding is_running start
ensure_running d = if is_running d then d else start d

-- Where a call of OnionBalance.Reload stands: it has returned, it waits for the process that it sent the signal to, or
-- it has panicked.
pub data Reload : Type 0 where
  returned waiting crashed : Daemon → Reload

-- The end of Reload, once it need not wait any more.
unfoldable pub resume : Daemon → Reload
unfolding start
resume d = returned (start d)

-- t.cmd.Wait(), whose error is logged, and what follows it.
unfoldable pub wait_for : Status → Daemon → Reload
unfolding resume
wait_for unstarted d = resume d
wait_for unwaited d = waiting d
wait_for exited d = resume d
wait_for killed d = resume d

unfoldable pub after_signal : Status → Daemon → Option Daemon → Reload
unfolding wait_for
after_signal s d (some e) = wait_for s e
after_signal s d none = crashed d

unfoldable pub stop : Option Status → Daemon → Reload
unfolding signal after_signal
stop (some s) d = after_signal s d (signal s d)
stop none d = crashed d

-- OnionBalance.Reload, as far as it gets by itself.
unfoldable pub balance_reload : Daemon → Reload
unfolding is_running stop resume
balance_reload d = if is_running d then stop d.cmd d else resume d

unfoldable pub new_daemon : Daemon
new_daemon = record { cmd = none; loops = 0; hups = 0 }

-- A step of a loop: it makes a command, the command gets its process, or the loop finds out how the process ended (a
-- second wait beside it can leave the command any status). No loop has an end.
pub data Work : Daemon → Daemon → Type 0 where
  creates : (d : Daemon) → 0 < d.loops → Work d (record d { cmd = some unstarted })
  starts :
      (d : Daemon)
      → 0 < d.loops
      → d.cmd ≡ some unstarted
      → Work d (record d { cmd = some unwaited })
  ends :
      (d : Daemon) (s : Status)
      → 0 < d.loops
      → d.cmd ≡ some unwaited
      → Work d (record d { cmd = some s })
