-- ===== src/Agent/Upload.antt =====
-- `uploadBackupSync` and `uploadBackup` of internal/agent/agent.go.
pub mod Kept
use marmot_cli.Common.{
  ◌≡◌, ℕ, Bool, true, false, List, [], ◌∷◌, ◌++◌, Option, none, some, Bytes, codes, decimal, Result,
  ok, err, ◌>>=◌, ◌>>◌, length, if◌then◌else◌,
}
use marmot_cli.Files.{File, Disk, find_file}
use marmot_cli.Streams.{Reader, Writer, read_all, reader, fresh}
use marmot_cli.Storage.{Time, BackupFile}
use marmot_cli.Storage.Queue.{Fault, Table, QueueError, enqueue, increment_retry, remove}
use marmot_cli.Storage.Local.{LocalStorage, LocalError, WriteFaults, save, load}
use marmot_cli.S3.Client.{S3Error, upload_failed, BackupMetadata, upload}
use marmot_cli.Crypto.{CryptoError, encrypt}
use marmot_cli.Config.{DatabaseConfig, is_local, get_server_id}
use marmot_cli.Agent.{Gzip, Setup, Agent, World, AgentError, UploadError}
use marmot_cli.Agent.Programs.{Command, dump_command}
use marmot_cli.Agent

-- What may fail in one upload, and the time at which a failure is noted.
pub record SendFaults : Type 0 where
  pub load : Bytes
  pub unqueue : Fault
  pub increment : Fault
  pub now : Time

abbrev pub map_err {ℓ κ μ} :
    {E : Type ℓ} {F : Type κ} {A : Type μ} → (E → F) → Result E A → Result F A
map_err f (ok a) = ok a
map_err f (err e) = err (f e)

pub map_err-eq-ok {ℓ κ μ} :
    {E : Type ℓ} {F : Type κ} {A : Type μ} (f : E → F) (r : Result E A) {x : A}
    → map_err f r ≡ ok x
    → r ≡ ok x
map_err-eq-ok f (ok a) h = cc
map_err-eq-ok f (err e) h = cc

abbrev pub is_panic : UploadError → Bool
is_panic (Agent.load_failed e) = false
is_panic Agent.nil_remote = true
is_panic (Agent.send_failed e) = false
is_panic (Agent.unqueue_failed e) = false

module _ (setup : Setup) (a : Agent) where
  -- Loading a saved backup and handing it to the client; a file that cannot be read makes the client fail.
  -- Without a remote storage the code panics: the value `nil_remote` stands for that.
  send_body :
      Result LocalError Reader
      → DatabaseConfig
      → BackupFile
      → World setup
      → World setup × Result UploadError BackupMetadata
  send_body (err e) db b w = (w, err (Agent.load_failed e))
  send_body (ok r) db b w = elim a.remote [
    | none ↦ (w, err Agent.nil_remote)
    | some p ↦ elim (read_all r) [
      | err e ↦ (w, err (Agent.send_failed (upload_failed e)))
      | ok body ↦
          let (s, sent) =
            upload setup.client p (get_server_id setup.hostname a.config) db.name body
              (setup.calendar b.created_at) w.bucket in
          (record w { bucket = s }, map_err Agent.send_failed sent)
    ]
  ]

  unfoldable pub send :
      SendFaults
      → DatabaseConfig
      → BackupFile
      → World setup
      → World setup × Result UploadError BackupMetadata
  unfolding send_body
  send f db b w = send_body (load a.storage f.load b.name w.disk) db b w

  -- What `uploadBackupSync` does after the upload.
  finish_sync :
      SendFaults
      → BackupFile
      → World setup
      → Result UploadError BackupMetadata
      → World setup × Result UploadError (Unit {0})
  finish_sync f b w (err e) = (w, err e)
  finish_sync f b w (ok m) =
      let (t, r) = remove f.unqueue b.name w.table in
      (record w { table = t }, map_err Agent.unqueue_failed r)

  unfoldable pub upload_backup_sync :
      SendFaults
      → DatabaseConfig
      → BackupFile
      → World setup
      → World setup × Result UploadError (Unit {0})
  unfolding finish_sync
  upload_backup_sync f db b w = let (w', r) = send f db b w in finish_sync f b w' r

  -- What `uploadBackup` does after the upload: errors of the queue are printed at most. A panic ends it.
  unfoldable pub settle :
      SendFaults → BackupFile → World setup → Result UploadError BackupMetadata → World setup
  settle f b w (err e) = if is_panic e then w else record w {
    table = (increment_retry f.increment b.name (setup.error_text e) f.now w.table).0;
  }
  settle f b w (ok m) = record w { table = (remove f.unqueue b.name w.table).0 }

  unfoldable pub upload_backup :
      SendFaults → DatabaseConfig → BackupFile → World setup → World setup
  unfolding settle
  upload_backup f db b w = let (w', r) = send f db b w in settle f b w' r
