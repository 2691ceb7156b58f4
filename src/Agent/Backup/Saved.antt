-- ===== src/Agent/Backup/Saved.antt =====
-- What a backup that succeeded has dumped, sealed and saved.
use marmot_cli.Common.{
  ℕ, ◌≡◌, refl, ap, ◌∙◌, Bool, true, false, [], Option, none, some, arith, Bytes, Result, ok, err,
  ◌>>=◌, >>=-eq-ok,
}
use marmot_cli.Files.{File, write_file}
use marmot_cli.Streams.{reader, read_all}
use marmot_cli.Storage.{Time, BackupFile}
use marmot_cli.Storage.Queue.{QueueError}
use marmot_cli.Storage.Local.{LocalError, save}
use marmot_cli.Storage.Local.Laws.{save_ok}
use marmot_cli.Config.{DatabaseConfig}
use marmot_cli.Agent.{Setup, Agent, World, AgentError}
use marmot_cli.Agent.Programs.{Command, dump_command}
use marmot_cli.Agent.Backup.{
  BackupFaults, seal_dump, run_dump, upload_now, enqueue_backup, backup_file, queue_backup,
  saved_backup, backup_name, save_backup, backup,
}
use marmot_cli.Agent.Upload.{SendFaults}
use marmot_cli.Agent.Upload.Kept.{upload_backup_sync_disk}

read_reader :
    (text : Bytes) {content : Bytes} → read_all (reader text) ≡ ok content → content ≡ text
unfolding read_all
read_reader text h = cc

module _ (setup : Setup) (a : Agent) where
  upload_now_disk :
      (wait : Bool) (f : SendFaults) (db : DatabaseConfig) (b : BackupFile) (w : World setup)
      (r : Result QueueError (Unit {0}))
      → (upload_now setup a wait f db b w r).0.disk ≡ w.disk
  unfolding upload_now
  upload_now_disk wait f db b w (err e) = refl
  upload_now_disk true f db b w (ok done) = upload_backup_sync_disk setup a f db b w
  upload_now_disk false f db b w (ok done) = refl

  enqueue_backup_disk :
      (wait : Bool) (f : BackupFaults) (g : SendFaults) (db : DatabaseConfig) (b : BackupFile)
      (w : World setup)
      → (enqueue_backup setup a wait f g db b w).0.disk ≡ w.disk
  unfolding enqueue_backup
  enqueue_backup_disk wait f g db b w = upload_now_disk wait g db b _ _

  queue_backup_disk :
      (wait : Bool) (f : BackupFaults) (g : SendFaults) (db : DatabaseConfig) (name path : Bytes)
      (created : Time) (w : World setup) (r : Result AgentError File)
      → (queue_backup setup a wait f g db name path created w r).0.disk ≡ w.disk
  unfolding queue_backup
  queue_backup_disk wait f g db name path created w (err e) = refl
  queue_backup_disk wait f g db name path created w (ok info) =
      let after =
        enqueue_backup_disk wait f g db (backup_file setup a db name path created info) w in
      ground arith

  saved_backup_disk :
      (wait : Bool) (f : BackupFaults) (g : SendFaults) (db : DatabaseConfig) (name : Bytes)
      (created : Time) (w : World setup) (r : Result LocalError Bytes) {x : Option BackupFile}
      → (saved_backup setup a wait f g db name created w r).1 ≡ ok x
      → (path : Bytes) × (r ≡ ok path)
        × ((saved_backup setup a wait f g db name created w r).0.disk ≡ w.disk)
  unfolding saved_backup
  saved_backup_disk wait f g db name created w (err e) h = cc
  saved_backup_disk wait f g db name created w (ok path) h =
      (path, refl, queue_backup_disk wait f g db name path created w _)

  save_backup_disk :
      (wait : Bool) (f : BackupFaults) (g : SendFaults) (db : DatabaseConfig) (unix : ℕ)
      (created : Time) (w : World setup) (r : Result AgentError Bytes) {x : Option BackupFile}
      → (save_backup setup a wait f g db unix created w r).1 ≡ ok x
      → (sealed : Bytes) × (r ≡ ok sealed)
        × ((save_backup setup a wait f g db unix created w r).0.disk
            ≡ write_file a.storage.base_dir (backup_name setup a db unix) sealed created w.disk)
  unfolding save_backup
  save_backup_disk wait f g db unix created w (err e) h = cc
  save_backup_disk wait f g db unix created w (ok sealed) h =
      let name = backup_name setup a db unix in
      let saved = save a.storage f.save name (reader sealed) created w.disk in
      let (path, went, kept) =
        saved_backup_disk wait f g db name created (record w { disk = saved.0 }) saved.1 h in
      let (where_to, content, got, written) =
        save_ok a.storage f.save name (reader sealed) created w.disk went in
      (
        sealed,
        refl,
        kept
            ∙ written
            ∙ ap (λ text. write_file a.storage.base_dir name text created w.disk)
                (read_reader sealed got),
      )

  run_dump_ok :
      (c : Option Command) (db : DatabaseConfig) (f : BackupFaults) (w : World setup) {dump : Bytes}
      → (run_dump setup a c db f w).1 ≡ ok dump
      → (command : Command) × (c ≡ some command)
        × ((setup.programs.run command [] w.databases).1 ≡ ok dump)
        × ((run_dump setup a c db f w).0.disk ≡ w.disk)
  unfolding run_dump
  run_dump_ok none db f w h = cc
  run_dump_ok (some c) db f w h = (c, refl, ground arith, ground arith)

  -- The dump, the sealed text and the file of a backup that succeeded.
  pub backup_saved :
      (db : DatabaseConfig) (wait : Bool) (f : BackupFaults) (g : SendFaults) (unix : ℕ)
      (created : Time) (w : World setup) {x : Option BackupFile}
      → (backup setup a db wait f g unix created w).1 ≡ ok x
      → (c : Command) × (dump : Bytes) × (sealed : Bytes) × (dump_command db ≡ some c)
        × ((setup.programs.run c [] w.databases).1 ≡ ok dump)
        × (seal_dump setup a f dump ≡ ok sealed)
        × ((backup setup a db wait f g unix created w).0.disk
            ≡ write_file a.storage.base_dir (backup_name setup a db unix) sealed created w.disk)
  unfolding backup
  backup_saved db wait f g unix created w h =
      let dumped = run_dump setup a (dump_command db) db f w in
      let (sealed, made, saved) =
        save_backup_disk wait f g db unix created dumped.0 (dumped.1 >>= seal_dump setup a f) h in
      let (dump, got, seal) = >>=-eq-ok dumped.1 (seal_dump setup a f) made in
      let (c, which, ran, kept) = run_dump_ok (dump_command db) db f w got in
      (
        c,
        dump,
        sealed,
        which,
        ran,
        seal,
        saved
            ∙ ap (write_file a.storage.base_dir (backup_name setup a db unix) sealed created) kept,
      )
