-- ===== src/Commands/Start.antt =====
-- `runStart` of cmd/marmot/cmd/start.go: the pid file is held from before the configuration is validated until
-- the daemon ends.
use marmot_cli.Common.{ℕ, Bool, false, [], Option, Bytes, Result, ok, err, ◌>>=◌}
use marmot_cli.Files.{Disk}
use marmot_cli.Config.{Config, Paths}
use marmot_cli.Config.Databases.{ConfigFiles, load_config}
use marmot_cli.Agent.Scheduler.{Cron, Scheduler, SchedulerError, start, stop}
use marmot_cli.Agent.Upload.{map_err}
use marmot_cli.Commands.Prepare.{PrepareFaults, PrepareError, prepare}
use marmot_cli.PidFile.{PidError, TryFaults, acquire_pid_file, release}

pub data StartError : Type 0 where
  load_failed : Bytes → StartError
  acquire_failed : PidError → StartError
  prepare_failed : PrepareError → StartError
  schedule_failed : SchedulerError → StartError

-- What `AcquirePIDFile` and the release of the file meet.
pub record PidFaults : Type 0 where
  pub running : ℕ → Bool
  pub mkdir : Option Bytes
  pub first : TryFaults
  pub read : Option Bytes
  pub remove : Option Bytes
  pub second : TryFaults
  pub pid : ℕ
  pub unlink : Option Bytes

module _ (cron : Cron) (jobs : cron.State) (f : PrepareFaults) (g : PidFaults) (disk : Disk) where
  started : Scheduler cron × Result SchedulerError (Unit {0}) → Result StartError (Scheduler cron)
  started (s, err e) = err (schedule_failed e)
  started (s, ok done) = ok s

  -- The scheduler that runs until the signal comes.
  unfoldable pub serve : Config → Result StartError (Scheduler cron)
  unfolding started prepare
  serve cfg = do
    p ← map_err prepare_failed (prepare f disk cfg)
    started (start cron p.agent.config (record { jobs = jobs; entry_ids = []; is_running = false }))

  -- The release is deferred: it comes however the daemon ends.
  held :
      Config
      → Option Bytes × Result PidError (Unit {0})
      → Option Bytes × Result StartError (Scheduler cron)
  unfolding serve
  held cfg (file, err e) = (file, err (acquire_failed e))
  held cfg (file, ok done) = ((release false g.unlink file).1, serve cfg >>= λ s. ok (stop cron s))

  -- The state is the text of the pid file, if it is there; the scheduler is the one that was stopped.
  unfoldable pub run_start :
      Paths → Bytes → ConfigFiles → Option Bytes → Option Bytes × Result StartError (Scheduler cron)
  unfolding held
  run_start paths path files file = elim (load_config paths path files) [
    | err e ↦ (file, err (load_failed e))
    | ok cfg ↦
        held cfg (acquire_pid_file g.running g.mkdir g.first g.read g.remove g.second g.pid file)
  ]
