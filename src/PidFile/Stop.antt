-- ===== src/PidFile/Stop.antt =====
-- `StopProcess` of internal/daemon/pidfile.go, and `runStopDaemon` of cmd/marmot/cmd/stop.go. The `k`-th poll
-- reads the clock and then asks whether the process runs.
pub mod Polls
use marmot_cli.Common.{
  ℕ, zero, suc, ℤ, pos, negsuc, ◌+◌, ◌-◌, ◌*◌, ◌/◌, Bool, true, false, not, Option, none, some,
  Bytes, Result, ok, err, ◌>>=◌, ltb, repeat, if◌then◌else◌,
}
use marmot_cli.Storage.{Time, second}
use marmot_cli.Config.{Config, Paths}
use marmot_cli.Config.Databases.{ConfigFiles, load_config}
use marmot_cli.PidFile.{read_pid_file}

-- 100 milliseconds.
abbrev pub poll_sleep : ℕ
poll_sleep = 100000000

pub record Polling : Type 0 where
  pub polls : ℕ
  pub stopped : Bool

module _ (clock : ℕ → Time) (running : ℕ → Bool) (deadline : Time) where
  -- A round of the loop, which ends at the deadline and where the process is found to be gone.
  unfoldable pub poll : Polling → Option Polling
  poll p =
      if p.stopped
      then none
      else if ltb (clock p.polls) deadline
      then some (
          if running p.polls then record p { polls = suc p.polls } else record p { stopped = true })
      else none

  -- There are at most as many rounds as sleeps fit before the deadline, and one more.
  unfoldable pub poll_all : ℕ → Polling
  unfolding poll
  poll_all timeout = repeat poll (timeout / poll_sleep + 2) (record { polls = 0; stopped = false })

-- What `SIGTERM` answers.
pub data Signalled : Type 0 where
  sent process_done : Signalled
  refused : Bytes → Signalled

pub data StopError : Type 0 where
  load_failed find_failed signal_failed : Bytes → StopError
  unreadable timed_out : ℕ → StopError
  invalid_pid : ℤ → StopError

-- What the system does: the errors of `FindProcess`, the answer to the signal, the readings of the clock and
-- whether the process runs at each poll.
pub record Watched : Type 0 where
  pub find : Option Bytes
  pub signal : Signalled
  pub clock : ℕ → Time
  pub running : ℕ → Bool
  pub started : Time

waited : ℕ → Polling → Result StopError (Unit {0})
waited pid p = if p.stopped then ok tt else err (timed_out pid)

signalled : Watched → ℕ → ℕ → Signalled → Result StopError (Unit {0})
unfolding waited poll_all
signalled w pid timeout sent = waited pid (poll_all w.clock w.running (w.started + timeout) timeout)
signalled w pid timeout process_done = ok tt
signalled w pid timeout (refused e) = err (signal_failed e)

-- A pid that is not positive is refused.
unfoldable pub stop_process : Watched → ℤ → ℕ → Result StopError (Unit {0})
unfolding signalled
stop_process w (negsuc n) timeout = err (invalid_pid (negsuc n))
stop_process w (pos zero) timeout = err (invalid_pid (pos zero))
stop_process w (pos (suc n)) timeout = elim w.find [
  | some e ↦ err (find_failed e)
  | none ↦ signalled w (suc n) timeout w.signal
]

unlinked : Option Bytes → Option Bytes → Option Bytes
unlinked none file = none
unlinked (some e) file = file

stop_timeout : Bool → ℕ
stop_timeout force = (if force then 2 else 10) * second

after_stop :
    Option Bytes → Bytes → Result StopError (Unit {0}) → Option Bytes × Result StopError (Unit {0})
unfolding unlinked
after_stop unlink text (err e) = (some text, err e)
after_stop unlink text (ok done) = (unlinked unlink (some text), ok tt)

-- The process of a pid file: none where the text is not a pid.
stop_held :
    Option Bytes
    → (ℕ → Bool)
    → Watched
    → Bool
    → Bytes
    → Option ℕ
    → Option Bytes × Result StopError (Unit {0})
unfolding stop_process after_stop stop_timeout unlinked
stop_held unlink alive w force text none = (some text, err (unreadable 0))
stop_held unlink alive w force text (some pid) =
    if alive pid
    then after_stop unlink text (stop_process w (pos pid) (stop_timeout force))
    else (unlinked unlink (some text), ok tt)

-- The state is the text of the pid file, if it is there. `alive` is what `IsProcessRunning` answers first.
unfoldable pub run_stop_daemon :
    Option Bytes
    → (ℕ → Bool)
    → Watched
    → Paths
    → Bytes
    → ConfigFiles
    → Bool
    → Option Bytes
    → Option Bytes × Result StopError (Unit {0})
unfolding stop_held
run_stop_daemon unlink alive w paths path files force file = elim (load_config paths path files) [
  | err e ↦ (file, err (load_failed e))
  | ok cfg ↦ elim file [
    | none ↦ (none, ok tt)
    | some text ↦ stop_held unlink alive w force text (read_pid_file text)
  ]
]
