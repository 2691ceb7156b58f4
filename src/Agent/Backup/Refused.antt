-- ===== src/Agent/Backup/Refused.antt =====
-- A backup for cloud storage whose row the queue refuses.
use marmot_cli.Common.{
  ℕ, ◌≡◌, ◌≢◌, refl, ◌∙◌, Bool, false, Option, none, some, arith, Bytes, Result, ok, err, ◌>>=◌,
}
use marmot_cli.Files.{File}
use marmot_cli.Streams.{reader}
use marmot_cli.Storage.{Time, BackupFile}
use marmot_cli.Storage.Queue.{enqueue}
use marmot_cli.Storage.Local.{LocalError, save}
use marmot_cli.Config.{DatabaseConfig, is_local}
use marmot_cli.Agent.{Setup, Agent, World, AgentError}
use marmot_cli.Agent.Programs.{Command, dump_command}
use marmot_cli.Agent.Upload.{SendFaults}
use marmot_cli.Agent.Backup.{
  BackupFaults, backup, backup_file, backup_name, run_dump, seal_dump, save_backup, saved_backup,
  queue_backup, enqueue_backup, stat,
}

module _ (setup : Setup) (a : Agent) (f : BackupFaults) (cloud : is_local a.config ≡ false)
    (e : Bytes) (refuses : f.enqueue ≡ some e) where
  -- The queue and the bucket are as they were, and the backup fails.
  abbrev pub IsRefused : World setup → World setup × Result AgentError (Option BackupFile) → Type 0
  IsRefused w (w', r) =
      (w'.table ≡ w.table) × (w'.bucket ≡ w.bucket) × ((x : Option BackupFile) → r ≢ ok x)

  module _ (wait : Bool) (g : SendFaults) (db : DatabaseConfig) where
    enqueue_backup-IsRefused :
        (b : BackupFile) (w : World setup) → IsRefused w (enqueue_backup setup a wait f g db b w)
    unfolding enqueue_backup enqueue
    enqueue_backup-IsRefused b w = rw (refuses, enqueue) (refl, refl, λ x h. cc)

    queue_backup-IsRefused :
        (name path : Bytes) (created : Time) (w : World setup) (r : Result AgentError File)
        → IsRefused w (queue_backup setup a wait f g db name path created w r)
    unfolding queue_backup
    queue_backup-IsRefused name path created w (err e) = (refl, refl, λ x h. cc)
    queue_backup-IsRefused name path created w (ok info) =
        rw cloud (enqueue_backup-IsRefused (backup_file setup a db name path created info) w)

    saved_backup-IsRefused :
        (name : Bytes) (created : Time) (w : World setup) (r : Result LocalError Bytes)
        → IsRefused w (saved_backup setup a wait f g db name created w r)
    unfolding saved_backup
    saved_backup-IsRefused name created w (err e) = (refl, refl, λ x h. cc)
    saved_backup-IsRefused name created w (ok path) =
        queue_backup-IsRefused name path created w (stat setup a f name w.disk)

    save_backup-IsRefused :
        (unix : ℕ) (created : Time) (w : World setup) (r : Result AgentError Bytes)
        → IsRefused w (save_backup setup a wait f g db unix created w r)
    unfolding save_backup
    save_backup-IsRefused unix created w (err e) = (refl, refl, λ x h. cc)
    save_backup-IsRefused unix created w (ok sealed) =
        let (disk, r) =
          save a.storage f.save (backup_name setup a db unix) (reader sealed) created w.disk in
        saved_backup-IsRefused (backup_name setup a db unix) created (record w { disk = disk }) r

    run_dump_kept :
        (c : Option Command) (w : World setup)
        → ((run_dump setup a c db f w).0.table ≡ w.table)
          × ((run_dump setup a c db f w).0.bucket ≡ w.bucket)
    unfolding run_dump
    run_dump_kept none w = (refl, refl)
    run_dump_kept (some c) w = ground arith

    pub backup-IsRefused :
        (unix : ℕ) (created : Time) (w : World setup)
        → IsRefused w (backup setup a db wait f g unix created w)
    unfolding backup
    backup-IsRefused unix created w =
        let (w', r) = run_dump setup a (dump_command db) db f w in
        let (table, bucket) = run_dump_kept (dump_command db) w in
        let (same, untouched, never) =
          save_backup-IsRefused unix created w' (r >>= seal_dump setup a f) in
        (same ∙ table, untouched ∙ bucket, never)
