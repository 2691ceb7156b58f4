-- ===== src/Commands/Backup.antt =====
-- `runBackup` of cmd/marmot/cmd/backup.go.
pub mod Runs
use marmot_cli.Common.{
  ℕ, suc, Bool, true, false, not, List, [], ◌∷◌, Option, none, some, Bytes, is_empty, keep_if,
  Result, ok, err, ◌>>=◌, if◌then◌else◌,
}
use marmot_cli.Files.{Disk}
use marmot_cli.Storage.{Time, BackupFile}
use marmot_cli.Storage.Queue.Open.{Connection, Driver}
use marmot_cli.Config.{Config, DatabaseConfig, Paths, is_s3, get_database_by_id}
use marmot_cli.Config.Databases.{ConfigFiles, load_config}
use marmot_cli.Agent.{Setup, Agent, World, AgentError}
use marmot_cli.Agent.Upload.{SendFaults, map_err}
use marmot_cli.Agent.Backup.{BackupFaults, backup}
use marmot_cli.Commands.Prepare.{PrepareError, PrepareFaults, Parts, prepare, load_failed}

pub data BackupError : Type 0 where
  prepare_failed : PrepareError → BackupError
  database_not_found : Bytes → BackupError
  no_choice : BackupError

-- What happens in one backup: the faults of its calls and the two readings of the clock.
pub record Happening : Type 0 where
  pub faults : BackupFaults
  pub send : SendFaults
  pub unix : ℕ
  pub created : Time

-- The databases that are backed up: with `--all` those that are enabled.
unfoldable pub chosen : Bool → Bytes → Config → Result BackupError (List DatabaseConfig)
unfolding keep_if
chosen all id cfg =
    if all
    then ok (keep_if (λ db. db.enabled) cfg.databases)
    else if not (is_empty id)
    then (elim (get_database_by_id id cfg) [
      | none ↦ err (database_not_found id)
      | some db ↦ ok (db ∷ [])
    ])
    else err no_choice

-- The lines on standard error, each with the id of a database.
abbrev pub Failures : Type 0
Failures = List (Bytes × AgentError)

unfoldable pub note_failure {ℓ} : {A : Type ℓ} → Bytes → Result AgentError A → Failures → Failures
note_failure id (err e) failures = (id, e) ∷ failures
note_failure id (ok x) failures = failures

-- The parts, and what is to be backed up.
unfoldable pub plan :
    PrepareFaults
    → Paths
    → Bytes
    → ConfigFiles
    → Bool
    → Bytes
    → Disk
    → Result BackupError (Parts × List DatabaseConfig)
unfolding prepare chosen
plan f paths path files all id disk = do
  cfg ← map_err (λ e. prepare_failed (load_failed e)) (load_config paths path files)
  p ← map_err prepare_failed (prepare f disk cfg)
  dbs ← chosen all id p.agent.config
  ok (p, dbs)

module _ (setup : Setup) (d : Driver) (happens : ℕ → Happening) where
  -- A write of the queue goes through its connection.
  abbrev pub through : Connection → BackupFaults → BackupFaults
  through c f = record f { enqueue = d.write c f.enqueue }

  -- The backup of the `i`-th database; for cloud storage the upload is waited for.
  unfoldable pub backup_one :
      Parts → ℕ → DatabaseConfig → World setup → World setup × Result AgentError (Option BackupFile)
  backup_one p i db w =
      backup setup p.agent db (is_s3 p.agent.config) (through p.connection (happens i).faults)
        (happens i).send (happens i).unix (happens i).created w

  -- One after the other; one that fails is reported, and the next one is backed up.
  unfoldable pub backup_all : Parts → ℕ → List DatabaseConfig → World setup → World setup × Failures
  unfolding backup_one note_failure
  backup_all p i [] w = (w, [])
  backup_all p i (db ∷ dbs) w =
      let (w', r) = backup_one p i db w in
      let (last, failures) = backup_all p (suc i) dbs w' in (last, note_failure db.id r failures)

  backed_up :
      World setup
      → Result BackupError (Parts × List DatabaseConfig)
      → World setup × Result BackupError Failures
  unfolding backup_all
  backed_up w (err e) = (w, err e)
  backed_up w (ok (p, dbs)) = let (last, failures) = backup_all p 0 dbs w in (last, ok failures)

  -- The command succeeds, whatever failures it has reported.
  unfoldable pub run_backup :
      PrepareFaults
      → Paths
      → Bytes
      → ConfigFiles
      → Bool
      → Bytes
      → World setup
      → World setup × Result BackupError Failures
  unfolding backed_up plan
  run_backup f paths path files all id w = backed_up w (plan f paths path files all id w.disk)
