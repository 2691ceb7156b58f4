-- ===== src/Agent.antt =====
-- The agent of internal/agent/agent.go: what it holds and what it acts on.
pub mod Programs
pub mod Upload
pub mod Backup
pub mod Restore
pub mod Retry
pub mod Scheduler
pub mod Examples
use marmot_cli.Common.{ℕ, ◌≡◌, List, Option, Bytes, Result, ok}
use marmot_cli.Files.{Disk}
use marmot_cli.Storage.{Time}
use marmot_cli.Storage.Queue.{Table, QueueError}
use marmot_cli.Storage.Local.{LocalStorage, LocalError}
use marmot_cli.S3.Settings.{S3Provider}
use marmot_cli.S3.Key.{Stamp}
use marmot_cli.S3.Client.{S3Client, S3Error}
use marmot_cli.Crypto.{Gcm, AesEncryptor, CryptoError}
use marmot_cli.Config.{Config}
use marmot_cli.Agent.Programs.{DatabasePrograms}

-- Go's `compress/gzip`: what was compressed is decompressed; a text that is not gzip's is an error.
pub record Gzip : Type 0 where
  pub zip : Bytes → Bytes
  pub unzip : Bytes → Result Bytes Bytes
  pub unzip-zip : (bs : Bytes) → unzip (zip bs) ≡ ok bs

pub data UploadError : Type 0 where
  load_failed : LocalError → UploadError
  send_failed : S3Error → UploadError
  unqueue_failed : QueueError → UploadError
  nil_remote : UploadError

-- What lies outside: the AWS client, the cipher, gzip, the database programs, the calendar of the time
-- zone, the host name, and how an error prints.
pub record Setup : Type 1 where
  pub client : S3Client
  pub gcm : Gcm
  pub gzip : Gzip
  pub programs : DatabasePrograms
  pub calendar : Time → Stamp
  pub hostname : Bytes
  pub error_text : UploadError → Bytes

-- `remote` is nil where the storage is local.
pub record Agent : Type 0 where
  pub config : Config
  pub storage : LocalStorage
  pub remote : Option S3Provider
  pub encryptor : AesEncryptor

pub data AgentError : Type 0 where
  unsupported_type : Bytes → AgentError
  temp_failed dump_failed seek_failed compress_failed decompress_failed open_failed restore_failed
        stat_failed :
      Bytes → AgentError
  encrypt_failed decrypt_failed : CryptoError → AgentError
  storage_failed : LocalError → AgentError
  enqueue_failed : QueueError → AgentError
  upload_failed : UploadError → AgentError
  download_failed : S3Error → AgentError
  nil_remote : AgentError

-- What the agent acts on: files, the upload queue, the bucket and the databases.
pub record World (setup : Setup) : Type 0 where
  pub disk : Disk
  pub table : Table
  pub bucket : setup.client.State
  pub databases : setup.programs.State
