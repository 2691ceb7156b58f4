-- ===== src/Commands/Examples.antt =====
-- A server with one database: its files, its probe of the queue, and a driver of SQLite.
mod Files
mod Queue
mod Runs
use marmot_cli.Common.{
  ◌≡◌, ◌≢◌, ◌↔◌, ◌+◌, refl, inl, ℕ, ℤ, true, false, [], ◌∷◌, Option, none, some, arith, Bytes,
  codes, ok, err, text_eq, is_empty, decimal, digits, keep_if, ◌++◌,
}
use marmot_cli.Files.{File, find_file, write_file, remove_file}
use marmot_cli.Streams.{reader, read_all, write}
use marmot_cli.Storage.Local.{save}
use marmot_cli.S3.Key.{split_last}
use marmot_cli.Crypto.{encrypt, load_key, load_key_from_file}
use marmot_cli.Crypto.Examples.{key_32, keyed}
use marmot_cli.Config.{Config, is_local, is_s3, s3_storage, find_database}
use marmot_cli.Config.Databases.{ConfigFiles, load_config}
use marmot_cli.Config.Examples.{paths, shop, with_shop}
use marmot_cli.Storage.Queue.Open.{
  Probe, Driver, Connection, query_only, writable, new_sqlite_queue,
}
use marmot_cli.Storage.Queue.{Fault, enqueue, clear}
use marmot_cli.Storage.Queue.Examples.{old_backup, two}
use marmot_cli.Storage.Queue.Open.Modes.{
  IsUserQueue, CanWrite, new_sqlite_queue_iff, new_sqlite_queue_refuses,
}
use marmot_cli.Remote.{Storage, new_storage_with_context}
use marmot_cli.Remote.Created.{new_storage_with_context_iff}
use marmot_cli.S3.Settings.{IsComplete}
use marmot_cli.Agent.{World}
use marmot_cli.Agent.Programs.{Command, dump_command}
use marmot_cli.Agent.Backup.{compress, encrypted, seal_zipped, seal_dump, backup_name, backup}
use marmot_cli.Agent.Upload.{map_err}
use marmot_cli.Agent.Restore.RoundTrip.{no_faults}
use marmot_cli.Agent.Examples.{toy, printers, local_agent, fine, fine_send, fine-IsNonce, start}
use marmot_cli.Agent.Scheduler.Examples.{toy_cron}
use marmot_cli.PidFile.{TryFaults, acquire_pid_file}
use marmot_cli.Verify.Bson.{Document}
use marmot_cli.Verify.Report.{empty_report, detect_db_type_from_filename}
use marmot_cli.Verify.Command.{
  VerifyFaults, VerifyFlags, verify_dump, run_verify, verification_failed,
}
use marmot_cli.Verify.Command.Sources.{IsNamed, run_verify-latest}
use marmot_cli.Verify.Command.Sealed.{run_verify-backup}
use marmot_cli.Commands.{encryptor_of, split_path}
use marmot_cli.Commands.Prepare.{PrepareFaults}
use marmot_cli.Commands.Restore.{RestoreFlags, RestoreCommandFaults, RestoreError, run_restore}
use marmot_cli.Commands.Backup.{Happening, run_backup}
use marmot_cli.Commands.Backup.Runs.{run_backup-refused}
use marmot_cli.Agent.Restore.Sealed.{file_at}
use marmot_cli.Commands.Decrypt.{output_path, run_decrypt}
use marmot_cli.Commands.Decrypt.Plain.{no_decrypt_faults, run_decrypt-backup}
use marmot_cli.Commands.Start.{PidFaults, run_start}

abbrev pub as_it_is : Document → Document
as_it_is doc = doc

abbrev pub no_time : ℤ → ℤ → Bytes
no_time seconds nanoseconds = []

abbrev pub local_files : ConfigFiles
local_files path = ok with_shop

abbrev pub cloud_files : ConfigFiles
cloud_files path = ok (record with_shop { storage_type = s3_storage })

-- The queue of a user other than root.
abbrev pub user_probe : Probe
user_probe = record {
  file_exists = true;
  file_opens_for_writing = true;
  dir_exists = true;
  dir_takes_files = true;
  is_root = false;
  can_read_file = true;
  mkdir = none;
  connect = λ c. none;
  query = λ c. none;
  pragma = none;
  schema = none;
}

pub user_probe-IsUserQueue : IsUserQueue user_probe
user_probe-IsUserQueue = record {
  not_root = refl;
  there = refl;
  readable = refl;
  connects = refl;
  answers = refl;
}

abbrev pub key_file : File
key_file = record {
  dir = codes "/etc/marmot";
  name = codes "key.bin";
  content = key_32;
  mod_time = 0;
  is_dir = false;
}

abbrev pub server : World toy
server = record start { disk = key_file ∷ [] }

abbrev pub no_verify_faults : VerifyFaults
no_verify_faults = record {
  aws = none;
  temp = none;
  download_writes = [];
  seek = none;
  read_key = [];
  open_file = [];
  partial = none;
  first_read = 0;
  first_fault = none;
}

pub local_loads : load_config paths [] local_files ≡ ok with_shop
unfolding load_config is_empty
local_loads = refl

-- A driver that writes to any file but one that is opened for queries only.
abbrev pub sqlite_write : Connection → Fault → Fault
sqlite_write query_only f = some (codes "attempt to write a readonly database")
sqlite_write c f = f

abbrev pub sqlite : Driver
sqlite = record {
  write = sqlite_write;
  refuses = λ f. (codes "attempt to write a readonly database", refl);
}
