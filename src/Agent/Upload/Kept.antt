-- ===== src/Agent/Upload/Kept.antt =====
-- What an upload leaves as it was.
use marmot_cli.Common.{◌≡◌, refl, ◌∙◌, arith, Result, ok, err}
use marmot_cli.Streams.{Reader}
use marmot_cli.Storage.{BackupFile}
use marmot_cli.Storage.Local.{LocalError}
use marmot_cli.S3.Client.{BackupMetadata}
use marmot_cli.Config.{DatabaseConfig}
use marmot_cli.Agent.{Setup, Agent, World, UploadError}
use marmot_cli.Agent.Upload.{SendFaults, send_body, send, finish_sync, upload_backup_sync}

module _ (setup : Setup) (a : Agent) where
  send_body_disk :
      (r : Result LocalError Reader) (db : DatabaseConfig) (b : BackupFile) (w : World setup)
      → (send_body setup a r db b w).0.disk ≡ w.disk
  unfolding send_body
  send_body_disk r db b w = ground arith

  pub send_disk :
      (f : SendFaults) (db : DatabaseConfig) (b : BackupFile) (w : World setup)
      → (send setup a f db b w).0.disk ≡ w.disk
  unfolding send
  send_disk f db b w = send_body_disk _ db b w

  send_body_table :
      (r : Result LocalError Reader) (db : DatabaseConfig) (b : BackupFile) (w : World setup)
      → (send_body setup a r db b w).0.table ≡ w.table
  unfolding send_body
  send_body_table r db b w = ground arith

  pub send_table :
      (f : SendFaults) (db : DatabaseConfig) (b : BackupFile) (w : World setup)
      → (send setup a f db b w).0.table ≡ w.table
  unfolding send
  send_table f db b w = send_body_table _ db b w

  finish_sync_disk :
      (f : SendFaults) (b : BackupFile) (w : World setup) (r : Result UploadError BackupMetadata)
      → (finish_sync setup a f b w r).0.disk ≡ w.disk
  unfolding finish_sync
  finish_sync_disk f b w (err e) = refl
  finish_sync_disk f b w (ok m) = refl

  pub upload_backup_sync_disk :
      (f : SendFaults) (db : DatabaseConfig) (b : BackupFile) (w : World setup)
      → (upload_backup_sync setup a f db b w).0.disk ≡ w.disk
  unfolding upload_backup_sync
  upload_backup_sync_disk f db b w = finish_sync_disk f b _ _ ∙ send_disk f db b w
