-- ===== src/S3/Transfer.antt =====
-- What comes back from S3 is what was sent.
use marmot_cli.Common.{◌≡◌, none, arith, Bytes, ok, is_empty, ◌∙◌, length, if◌then◌else◌, pos}
use marmot_cli.Streams.{Writer, fresh}
use marmot_cli.S3.Settings.{S3Provider}
use marmot_cli.S3.Key.{Stamp, slash, generate_object_key, backup_id}
use marmot_cli.S3.Key.BackupId.{Lacks, parse_backup_id-backup_id}
use marmot_cli.S3.Client.{S3Client, BackupMetadata, upload, download, deliver, deliver-fresh}

module _ (c : S3Client) (p : S3Provider) where
  -- The server that an upload is filed under.
  abbrev pub server_of : Bytes → Bytes
  server_of id = if is_empty id then p.server_id else id

  upload_ok :
      (server name body : Bytes) (t : Stamp) (s : c.State) {m : BackupMetadata}
      → (upload c p server name body t s).1 ≡ ok m
      → let key = generate_object_key p.prefix (server_of server) name t in
        ((upload c p server name body t s).0 ≡ (c.put_object p.bucket key body s).0)
        × ((c.put_object p.bucket key body s).1 ≡ none)
        × (m.backup_id ≡ backup_id p.bucket key)
        × (m.size ≡ pos (length body))
  unfolding upload
  upload_ok server name body t s h = ground arith

  download_id :
      (key : Bytes) (w : Writer) (s : c.State)
      → Lacks slash p.bucket
      → download c p (backup_id p.bucket key) w s ≡ deliver w (c.get_object p.bucket key s)
  unfolding download
  download_id key w s plain = rw (parse_backup_id-backup_id p.bucket p.bucket key plain, download)

  read_back :
      (key body : Bytes) (s : c.State)
      → Lacks slash p.bucket
      → (c.put_object p.bucket key body s).1 ≡ none
      → let s' = (c.put_object p.bucket key body s).0 in
        (download c p (backup_id p.bucket key) fresh s').1 ≡ ok tt
        → (download c p (backup_id p.bucket key) fresh s').0.written ≡ body
  read_back key body s plain put h =
      let id = download_id key fresh (c.put_object p.bucket key body s).0 plain in
      let (got, found, same) = deliver-fresh _ (rw id at h) in
      rw id (same ∙ c.get-put p.bucket key body s put found)

  -- A backup that was uploaded and is then downloaded under the id that `Upload` returned, where
  -- both calls succeed and the bucket's name holds no slash, is the one that was sent; its size is
  -- that of the file.
  pub download-upload :
      (server name body : Bytes) (t : Stamp) (s : c.State) {m : BackupMetadata}
      → Lacks slash p.bucket
      → (upload c p server name body t s).1 ≡ ok m
      → let s' = (upload c p server name body t s).0 in
        (download c p m.backup_id fresh s').1 ≡ ok tt
        → ((download c p m.backup_id fresh s').0.written ≡ body) × (m.size ≡ pos (length body))
  download-upload server name body t s {m} plain sent got =
      let (state, put, id, size) = upload_ok server name body t s sent in
      (rw (state, id) (read_back _ body s plain put (rw (state, id) at got)), size)
