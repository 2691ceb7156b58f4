-- ===== src/Commands/Restore.antt =====
-- `runRestore` of cmd/marmot/cmd/restore.go.
pub mod Unchanged
use marmot_cli.Common.{
  Bool, true, false, not, ◌&&◌, List, [], ◌∷◌, ◌++◌, map, Option, none, some, Bytes, codes,
  is_empty, Result, ok, err, ◌>>=◌, ◌>>◌, fail_if, or_fail, ℤ, if◌then◌else◌,
}
use marmot_cli.Files.{File}
use marmot_cli.Storage.Local.{LocalStorage, LocalError, new_local_storage}
use marmot_cli.Storage.Queue.Open.{Probe, OpenError, Connection, new_sqlite_queue}
use marmot_cli.S3.Settings.{S3Provider}
use marmot_cli.S3.Client.{S3Error, BackupMetadata, list_backups}
use marmot_cli.Crypto.{CryptoError, AesEncryptor}
use marmot_cli.Config.{Config, DatabaseConfig, Paths, is_local, is_s3, get_database_by_id}
use marmot_cli.Config.Databases.{ConfigFiles, load_config}
use marmot_cli.Remote.{Storage, RemoteError, new_storage_with_context}
use marmot_cli.Agent.{Setup, Agent, World, AgentError}
use marmot_cli.Agent.Upload.{map_err}
use marmot_cli.Agent.Restore.{RestoreFaults, restore, restore_from_file}
use marmot_cli.Commands.{split_path, encryptor_of, is_yes}
use marmot_cli.Verify.Bson.{Document}
use marmot_cli.Verify.Report.{VerifyReport}
use marmot_cli.Verify.Command.{VerifyFaults, VerifyFlags, VerifyError, run_verify}

-- The errors of the calls; those of `NewSQLiteQueue` are in the probe. `response` is the answer to the prompt, and
-- `made` are the directories that the two calls of `MkdirAll` make.
pub record RestoreCommandFaults : Type 0 where
  pub mkdir : Option Bytes
  pub made : List File
  pub probe : Probe
  pub aws : Option Bytes
  pub read_key : Bytes
  pub response : Bytes
  pub restore : RestoreFaults
  pub verify : VerifyFaults

pub data RestoreError : Type 0 where
  load_failed : Bytes → RestoreError
  database_not_found no_backups : Bytes → RestoreError
  storage_failed : LocalError → RestoreError
  queue_failed : OpenError → RestoreError
  remote_failed : RemoteError → RestoreError
  local_mode no_remote cancelled : RestoreError
  key_failed : CryptoError → RestoreError
  list_failed : S3Error → RestoreError
  verify_failed : VerifyError → RestoreError
  restore_failed : AgentError → RestoreError

pub record RestoreFlags : Type 0 where
  pub database_id : Bytes
  pub backup_id : Bytes
  pub enc_file : Bytes
  pub force : Bool
  pub dry_run : Bool

-- What is restored: a file, or a backup by its id.
pub data Target : Type 0 where
  file backup : Bytes → Target

-- What the command has when it asks the user.
pub record Prepared : Type 0 where
  pub db : DatabaseConfig
  pub agent : Agent
  pub target : Target

newest : Bytes → List BackupMetadata → Result RestoreError Bytes
newest name [] = err (no_backups name)
newest name (b ∷ bs) = ok b.backup_id

unfoldable pub remote_of : Option Bytes → Config → Config × Result RestoreError (Option S3Provider)
remote_of aws cfg =
    if is_s3 cfg
    then (let (c, r) = new_storage_with_context aws cfg in
        (c, map_err remote_failed r >>= λ s. ok (some s.provider)))
    else (cfg, ok none)

module _ (setup : Setup) (f : RestoreCommandFaults) (w : World setup) where
  listed : DatabaseConfig → S3Provider → Result RestoreError Target
  unfolding newest
  listed db p = do
    backups ← map_err list_failed (list_backups setup.client p db.name 10 w.bucket)
    id ← newest db.name backups
    ok (backup id)

  -- The backup that is meant; without an id it is the latest one.
  unfoldable pub target_of :
      RestoreFlags → DatabaseConfig → Option S3Provider → Result RestoreError Target
  unfolding listed
  target_of flags db p =
      if not (is_empty flags.enc_file)
      then ok (file flags.enc_file)
      else if not (is_empty flags.backup_id)
      then ok (backup flags.backup_id)
      else elim p [ none ↦ err no_remote | some s ↦ listed db s ]

  -- The configuration's directory of backups is that of the agent's storage.
  unfoldable pub prepare_agent : RestoreFlags → Config → LocalStorage → Result RestoreError Agent
  unfolding remote_of
  prepare_agent flags cfg storage =
      let (c, r) = remote_of f.aws cfg in
      do
        p ← r
        fail_if (is_local c && is_empty flags.enc_file) local_mode
        e ← map_err key_failed (encryptor_of f.read_key c.paths.key_file w.disk)
        ok (record { config = c; storage = storage; remote = p; encryptor = e })

  unfoldable pub prepare : RestoreFlags → Config → Result RestoreError Prepared
  unfolding prepare_agent target_of
  prepare flags cfg = do
    db ← or_fail (get_database_by_id flags.database_id cfg) (database_not_found flags.database_id)
    storage ← map_err storage_failed (new_local_storage f.mkdir cfg.paths.backups_dir)
    connection ← map_err queue_failed (new_sqlite_queue f.probe)
    agent ← prepare_agent flags cfg storage
    target ← target_of flags db agent.remote
    ok (record { db = db; agent = agent; target = target })

  verified : Result VerifyError VerifyReport → Result RestoreError (Unit {0})
  verified (err e) = err (verify_failed e)
  verified (ok report) = ok tt

  -- `restore failed: …`
  outcome :
      World setup × Result AgentError (Unit {0}) → World setup × Result RestoreError (Unit {0})
  outcome (w', r) = (w', map_err restore_failed r)

  restore_target : Prepared → Target → World setup × Result RestoreError (Unit {0})
  unfolding outcome
  restore_target p (file path) =
      let (dir, name) = split_path path in
      outcome (restore_from_file setup p.agent p.db f.restore dir name w)
  restore_target p (backup id) = outcome (restore setup p.agent p.db f.restore id w)

  abbrev pub verify_flags : Target → VerifyFlags
  verify_flags (file path) = record {
    backup_id = [];
    database_id = [];
    latest = false;
    enc_file = path;
  }
  verify_flags (backup id) = record {
    backup_id = id;
    database_id = [];
    latest = false;
    enc_file = [];
  }

  module _ (order : Document → Document) (rfc3339 : ℤ → ℤ → Bytes) where
    -- Without `--force` the user is asked. A dry run verifies the backup and restores nothing.
    unfoldable pub confirmed :
        Paths
        → Bytes
        → ConfigFiles
        → RestoreFlags
        → Prepared
        → World setup × Result RestoreError (Unit {0})
    unfolding restore_target verified
    confirmed paths path files flags p =
        if not flags.force && not (is_yes f.response)
        then (w, err cancelled)
        else if flags.dry_run
        then (
          w,
          verified
              (run_verify setup f.verify w order rfc3339 paths path files (verify_flags p.target)),
        )
        else restore_target p p.target

    ready :
        Paths
        → Bytes
        → ConfigFiles
        → RestoreFlags
        → Result RestoreError Prepared
        → World setup × Result RestoreError (Unit {0})
    unfolding confirmed
    ready paths path files flags (err e) = (w, err e)
    ready paths path files flags (ok p) = confirmed paths path files flags p

abbrev pub as_directory : File → File
as_directory d = record d { content = []; is_dir = true }

-- The world when the storage and the queue are opened: the directories are made behind what is there. A queue
-- that is created has no rows, like the table of a world without one.
unfoldable pub opened_world :
    (setup : Setup) → RestoreCommandFaults → RestoreFlags → Config → World setup → World setup
opened_world setup f flags cfg w = elim (get_database_by_id flags.database_id cfg) [
  | none ↦ w
  | some db ↦ elim f.mkdir [
    | some e ↦ w
    | none ↦ record w { disk = w.disk ++ map as_directory f.made }
  ]
]

module _ (setup : Setup) (f : RestoreCommandFaults) (w : World setup) (order : Document → Document)
    (rfc3339 : ℤ → ℤ → Bytes) where
  restore_loaded :
      Paths
      → Bytes
      → ConfigFiles
      → RestoreFlags
      → Config
      → World setup × Result RestoreError (Unit {0})
  unfolding opened_world prepare ready
  restore_loaded paths path files flags cfg =
      let w' : World setup = opened_world setup f flags cfg w in
      ready setup f w' order rfc3339 paths path files flags (prepare setup f w' flags cfg)

  unfoldable pub run_restore :
      Paths → Bytes → ConfigFiles → RestoreFlags → World setup × Result RestoreError (Unit {0})
  unfolding restore_loaded
  run_restore paths path files flags = elim (load_config paths path files) [
    | err e ↦ (w, err (load_failed e))
    | ok cfg ↦ restore_loaded paths path files flags cfg
  ]
