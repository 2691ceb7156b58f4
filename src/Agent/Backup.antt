-- ===== src/Agent/Backup.antt =====
-- `Backup` of internal/agent/agent.go, with the compressor of
-- internal/backup/compressor.go. The calls of the system that may fail are named in a record of faults.
pub mod Saved
pub mod Queued
pub mod Refused
use marmot_cli.Common.{
  ℕ, Bool, true, false, List, [], ◌∷◌, ◌++◌, Option, none, some, Bytes, codes, decimal, Result, ok,
  err, ◌>>=◌, ◌>>◌, length, if◌then◌else◌,
}
use marmot_cli.Files.{File, Disk, find_file}
use marmot_cli.Streams.{Reader, Writer, read_all, reader, fresh}
use marmot_cli.Storage.{Time, BackupFile}
use marmot_cli.Storage.Queue.{Fault, Table, QueueError, enqueue, increment_retry, remove}
use marmot_cli.Storage.Local.{LocalStorage, LocalError, WriteFaults, save, load}
use marmot_cli.S3.Client.{S3Error, upload_failed, BackupMetadata, upload}
use marmot_cli.Crypto.{CryptoError, encrypt}
use marmot_cli.Config.{DatabaseConfig, is_local, get_server_id}
use marmot_cli.Agent.{Gzip, Setup, Agent, World, AgentError, UploadError}
use marmot_cli.Agent.Programs.{Command, dump_command}
use marmot_cli.Agent.Upload.{SendFaults, map_err, upload_backup_sync}
use marmot_cli.Agent

-- `close` is what the file holds where the last flush of the gzip writer fails: `defer` drops the error.
pub record GzipFaults : Type 0 where
  pub new_writer : Option Bytes
  pub copy : Option Bytes
  pub close : Option Bytes

pub record BackupFaults : Type 0 where
  pub dump_temp : Option Bytes
  pub dump_seek : Option Bytes
  pub gzip_temp : Option Bytes
  pub gzip : GzipFaults
  pub gzip_seek : Option Bytes
  pub sealed_temp : Option Bytes
  pub random : Result Bytes Bytes
  pub sealed_writes : List (Option Bytes)
  pub sealed_seek : Option Bytes
  pub save : WriteFaults
  pub stat : Option Bytes
  pub enqueue : Fault

abbrev pub unless {ℓ} : {E : Type ℓ} → (Bytes → E) → Option Bytes → Result E (Unit {0})
unless f none = ok tt
unless f (some e) = err (f e)

abbrev pub or_empty : Option Bytes → Bytes → Bytes
or_empty none whole = whole
or_empty (some partial) whole = partial

-- `Compress` of a file into an empty one.
unfoldable pub compress : Gzip → GzipFaults → Bytes → Result Bytes Bytes
compress g f text = do
  unless (λ e. e) f.new_writer
  unless (λ e. e) f.copy
  ok (or_empty f.close (g.zip text))

module _ (setup : Setup) (a : Agent) where
  -- What `Encrypt` leaves in an empty file.
  unfoldable pub encrypted : BackupFaults → Bytes → Result CryptoError Bytes
  encrypted f text =
      let (w, r) =
        encrypt setup.gcm f.random a.encryptor (reader text)
          (record { written = []; faults = f.sealed_writes }) in
      r >> ok w.written

  -- The steps between the dump and the file that is saved.
  unfoldable pub seal_zipped : BackupFaults → Bytes → Result AgentError Bytes
  seal_zipped f zipped = do
    unless Agent.seek_failed f.gzip_seek
    unless Agent.temp_failed f.sealed_temp
    sealed ← map_err Agent.encrypt_failed (encrypted f zipped)
    unless Agent.seek_failed f.sealed_seek
    ok sealed

  unfoldable pub seal_dump : BackupFaults → Bytes → Result AgentError Bytes
  seal_dump f dump = do
    unless Agent.seek_failed f.dump_seek
    unless Agent.temp_failed f.gzip_temp
    zipped ← map_err Agent.compress_failed (compress setup.gzip f.gzip dump)
    seal_zipped f zipped

  run_dump :
      Option Command
      → DatabaseConfig
      → BackupFaults
      → World setup
      → World setup × Result AgentError Bytes
  run_dump none db f w = (w, err (Agent.unsupported_type db.type))
  run_dump (some c) db f w = elim f.dump_temp [
    | some e ↦ (w, err (Agent.temp_failed e))
    | none ↦
        let (s, out) = setup.programs.run c [] w.databases in
        (record w { databases = s }, map_err Agent.dump_failed out)
  ]

  -- `fmt.Sprintf("%s-%s-%d.enc", dbConfig.ID, dbConfig.Name, time.Now().Unix())`
  abbrev pub backup_name : DatabaseConfig → ℕ → Bytes
  backup_name db unix =
      db.id ++ (codes "-" ++ (db.name ++ (codes "-" ++ (decimal unix ++ codes ".enc"))))

  -- The last step: an upload that is waited for, or one that is left to a goroutine of its own.
  upload_now :
      Bool
      → SendFaults
      → DatabaseConfig
      → BackupFile
      → World setup
      → Result QueueError (Unit {0})
      → World setup × Result AgentError (Option BackupFile)
  upload_now wait f db b w (err e) = (w, err (Agent.enqueue_failed e))
  upload_now wait f db b w (ok done) =
      let (w', r) = upload_backup_sync setup a f db b w in
      if wait then (w', map_err Agent.upload_failed r >> ok none) else (w, ok (some b))

  abbrev pub backup_file : DatabaseConfig → Bytes → Bytes → Time → File → BackupFile
  backup_file db name path created info = record {
    name = name;
    path = path;
    size = length info.content;
    created_at = created;
    database_id = db.id;
    retry_count = 0;
    last_retry_at = 0;
  }

  -- `os.Stat` of the saved file.
  stat : BackupFaults → Bytes → Disk → Result AgentError File
  stat f name disk = elim f.stat [
    | some e ↦ err (Agent.stat_failed e)
    | none ↦ elim (find_file a.storage.base_dir name disk) [
      | none ↦ err (Agent.stat_failed (codes "file does not exist"))
      | some info ↦ ok info
    ]
  ]

  -- Step 5 and 6 for cloud storage.
  enqueue_backup :
      Bool
      → BackupFaults
      → SendFaults
      → DatabaseConfig
      → BackupFile
      → World setup
      → World setup × Result AgentError (Option BackupFile)
  unfolding upload_now
  enqueue_backup wait f g db b w =
      let (t, r) = enqueue f.enqueue b w.table in upload_now wait g db b (record w { table = t }) r

  queue_backup :
      Bool
      → BackupFaults
      → SendFaults
      → DatabaseConfig
      → Bytes
      → Bytes
      → Time
      → World setup
      → Result AgentError File
      → World setup × Result AgentError (Option BackupFile)
  unfolding enqueue_backup
  queue_backup wait f g db name path created w (err e) = (w, err e)
  queue_backup wait f g db name path created w (ok info) =
      if is_local a.config
      then (w, ok none)
      else enqueue_backup wait f g db (backup_file db name path created info) w

  saved_backup :
      Bool
      → BackupFaults
      → SendFaults
      → DatabaseConfig
      → Bytes
      → Time
      → World setup
      → Result LocalError Bytes
      → World setup × Result AgentError (Option BackupFile)
  unfolding stat queue_backup
  saved_backup wait f g db name created w (err e) = (w, err (Agent.storage_failed e))
  saved_backup wait f g db name created w (ok path) =
      queue_backup wait f g db name path created w (stat f name w.disk)

  save_backup :
      Bool
      → BackupFaults
      → SendFaults
      → DatabaseConfig
      → ℕ
      → Time
      → World setup
      → Result AgentError Bytes
      → World setup × Result AgentError (Option BackupFile)
  unfolding saved_backup
  save_backup wait f g db unix created w (err e) = (w, err e)
  save_backup wait f g db unix created w (ok sealed) =
      let name = backup_name db unix in
      let (disk, r) = save a.storage f.save name (reader sealed) created w.disk in
      saved_backup wait f g db name created (record w { disk = disk }) r

  -- `unix` and `created` are the two readings of the clock, for the name and for `CreatedAt`. The result
  -- is the backup whose upload was started and is not waited for, if there is one.
  unfoldable pub backup :
      DatabaseConfig
      → Bool
      → BackupFaults
      → SendFaults
      → ℕ
      → Time
      → World setup
      → World setup × Result AgentError (Option BackupFile)
  unfolding run_dump save_backup
  backup db wait f g unix created w =
      let (w', r) = run_dump (dump_command db) db f w in
      save_backup wait f g db unix created w' (r >>= seal_dump f)
