-- ===== src/Agent/Backup/Queued.antt =====
-- What a backup that is not waited for does to the upload queue.
use marmot_cli.Common.{
  ℕ, ◌≡◌, inl, inr, refl, subst, Bool, true, false, Option, none, some, arith, Bytes, Result, ok,
  err, ◌>>=◌, if◌then◌else◌,
}
use marmot_cli.Files.{File}
use marmot_cli.Streams.{reader}
use marmot_cli.Storage.{Time, BackupFile}
use marmot_cli.Storage.Queue.{Table, enqueue}
use marmot_cli.Storage.Queue.Names.{enqueue_cases}
use marmot_cli.Storage.Local.{LocalError, save}
use marmot_cli.Config.{DatabaseConfig, is_local}
use marmot_cli.Agent.{Setup, Agent, World, AgentError}
use marmot_cli.Agent.Programs.{Command, dump_command}
use marmot_cli.Agent.Backup.{
  BackupFaults, stat, backup_name, seal_dump, run_dump, upload_now, enqueue_backup, backup_file,
  queue_backup, saved_backup, save_backup, backup,
}
use marmot_cli.Agent.Upload.{SendFaults}

-- Either the queue is as it was and no upload is started, or the backup that is being uploaded was queued.
abbrev pub IsQueued : Table → Table → Result AgentError (Option BackupFile) → Type 0
IsQueued was now (err e) = now ≡ was
IsQueued was now (ok none) = now ≡ was
IsQueued was now (ok (some b)) = now ≡ (enqueue none b was).0

module _ (setup : Setup) (a : Agent) where
  -- The same of a world and a result.
  abbrev Kept : Table → World setup × Result AgentError (Option BackupFile) → Type 0
  Kept was (w, r) = IsQueued was w.table r

  if-Kept :
      (c : Bool) (was : Table) (p q : World setup × Result AgentError (Option BackupFile))
      → Kept was p
      → Kept was q
      → Kept was (if c then p else q)
  if-Kept true was p q hp hq = hp
  if-Kept false was p q hp hq = hq

  enqueue_backup-Kept :
      (f : BackupFaults) (g : SendFaults) (db : DatabaseConfig) (b : BackupFile) (w : World setup)
      → Kept w.table (enqueue_backup setup a false f g db b w)
  unfolding enqueue_backup upload_now
  enqueue_backup-Kept f g db b w = elim (enqueue_cases f.enqueue b w.table) [
    | inl (x, e) ↦ rw e refl
    | inr e ↦ rw e refl
  ]

  queue_backup-Kept :
      (f : BackupFaults) (g : SendFaults) (db : DatabaseConfig) (name path : Bytes) (created : Time)
      (w : World setup) (r : Result AgentError File)
      → Kept w.table (queue_backup setup a false f g db name path created w r)
  unfolding queue_backup
  queue_backup-Kept f g db name path created w (err e) = refl
  queue_backup-Kept f g db name path created w (ok info) =
      let queued =
        enqueue_backup setup a false f g db (backup_file setup a db name path created info) w in
      if-Kept (is_local a.config) w.table (w, ok none) queued refl
        (enqueue_backup-Kept f g db (backup_file setup a db name path created info) w)

  saved_backup-Kept :
      (f : BackupFaults) (g : SendFaults) (db : DatabaseConfig) (name : Bytes) (created : Time)
      (w : World setup) (r : Result LocalError Bytes)
      → Kept w.table (saved_backup setup a false f g db name created w r)
  unfolding saved_backup
  saved_backup-Kept f g db name created w (err e) = refl
  saved_backup-Kept f g db name created w (ok path) =
      queue_backup-Kept f g db name path created w (stat setup a f name w.disk)

  save_backup-Kept :
      (f : BackupFaults) (g : SendFaults) (db : DatabaseConfig) (unix : ℕ) (created : Time)
      (w : World setup) (r : Result AgentError Bytes)
      → Kept w.table (save_backup setup a false f g db unix created w r)
  unfolding save_backup
  save_backup-Kept f g db unix created w (err e) = refl
  save_backup-Kept f g db unix created w (ok sealed) =
      let name = backup_name setup a db unix in
      let (disk, r) = save a.storage f.save name (reader sealed) created w.disk in
      saved_backup-Kept f g db name created (record w { disk = disk }) r

  run_dump_table :
      (c : Option Command) (db : DatabaseConfig) (f : BackupFaults) (w : World setup)
      → (run_dump setup a c db f w).0.table ≡ w.table
  unfolding run_dump
  run_dump_table none db f w = refl
  run_dump_table (some c) db f w = ground arith

  -- A backup whose upload is not waited for is queued before the upload is started; where it fails, or
  -- stays local, the queue is as it was.
  pub backup-IsQueued :
      (db : DatabaseConfig) (f : BackupFaults) (g : SendFaults) (unix : ℕ) (created : Time)
      (w : World setup)
      → let (w', r) = backup setup a db false f g unix created w in IsQueued w.table w'.table r
  unfolding backup
  backup-IsQueued db f g unix created w =
      subst (λ t. Kept t (backup setup a db false f g unix created w))
        (run_dump_table (dump_command db) db f w)
        (save_backup-Kept f g db unix created (run_dump setup a (dump_command db) db f w).0
          ((run_dump setup a (dump_command db) db f w).1 >>= seal_dump setup a f))
