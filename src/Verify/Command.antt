-- ===== src/Verify/Command.antt =====
-- `runVerify` and `verifyAutoDetect` of cmd/marmot/cmd/verify.go. The format of the report is printing.
pub mod Sources
pub mod Sealed
use marmot_cli.Common.{
  ℕ, ◌*◌, Bool, true, false, not, ◌&&◌, ◌||◌, List, [], ◌∷◌, Option, none, some, Bytes, codes,
  contains, is_empty, text_eq, Result, ok, err, ◌>>=◌, ◌>>◌, fail_if, or_fail, ltb, leb, length,
  take, ℤ, if◌then◌else◌,
}
use marmot_cli.Streams.{Reader, Writer, reader, fresh}
use marmot_cli.S3.Client.{S3Error, BackupMetadata, download, list_backups}
use marmot_cli.Crypto.{CryptoError, AesEncryptor, decrypt}
use marmot_cli.Config.{
  Config, DatabaseConfig, Paths, is_local, get_database_by_id, mysql, postgres, mongo,
}
use marmot_cli.Config.Databases.{ConfigFiles, load_config}
use marmot_cli.Remote.{Storage, RemoteError, new_storage_with_context}
use marmot_cli.Agent.{Gzip, Setup, World}
use marmot_cli.Agent.Upload.{map_err}
use marmot_cli.Agent.Backup.{unless}
use marmot_cli.Commands.{open_path, encryptor_of}
use marmot_cli.Verify.Bson.{Document, little_endian}
use marmot_cli.Verify.Report.{VerifyReport, detect_db_type_from_filename}
use marmot_cli.Verify.Mongo.{verify_mongo_archive}
use marmot_cli.Verify.Sql.{verify_sql_dump}

-- The errors of the calls. Where the text is not gzip's, `partial` is what is read before the error, and
-- none where it is at the head. `first_read` is the length of what the first read gives, which is at most
-- the 1024 bytes of its buffer, and `first_fault` its error.
pub record VerifyFaults : Type 0 where
  pub aws : Option Bytes
  pub temp : Option Bytes
  pub download_writes : List (Option Bytes)
  pub seek : Option Bytes
  pub read_key : Bytes
  pub open_file : Bytes
  pub partial : Option Bytes
  pub first_read : ℕ
  pub first_fault : Option Bytes

pub data VerifyError : Type 0 where
  load_failed temp_failed seek_failed open_failed gzip_failed verification_failed :
      Bytes → VerifyError
  local_mode no_source : VerifyError
  database_not_found no_backups : Bytes → VerifyError
  remote_failed : RemoteError → VerifyError
  list_failed download_failed : S3Error → VerifyError
  key_failed decryption_failed : CryptoError → VerifyError

-- The flags and the argument of the command.
pub record VerifyFlags : Type 0 where
  pub backup_id : Bytes
  pub database_id : Bytes
  pub latest : Bool
  pub enc_file : Bytes

-- Where the backup is: a local file, or what was downloaded.
pub data Source : Type 0 where
  local_file downloaded : Bytes → Source

-- `gzip.NewReader`
unfoldable pub gzip_reader : Gzip → Option Bytes → Bytes → Result Bytes Reader
gzip_reader g partial bytes = elim (g.unzip bytes) [
  | ok plain ↦ ok (reader plain)
  | err e ↦ elim partial [ none ↦ err e | some read ↦ ok (record { bytes = read; fault = some e }) ]
]

module _ (order : Document → Document) (rfc3339 : ℤ → ℤ → Bytes) where
  detected : Bytes → Reader → Result Bytes VerifyReport
  detected content r =
      let doc_len = little_endian (take 4 content) in
      if contains (codes "CREATE TABLE") content || contains (codes "INSERT INTO") content
      then verify_sql_dump (codes "unknown-sql") r
      else if ltb 4 (length content) && (ltb 0 doc_len && ltb doc_len (16 * 1024 * 1024))
      then verify_mongo_archive order rfc3339 r
      else err (codes "unable to auto-detect backup format")

  -- The reader that is handed on has the bytes that were read in front again.
  unfoldable pub verify_auto_detect : ℕ → Option Bytes → Reader → Result Bytes VerifyReport
  unfolding detected
  verify_auto_detect n fault r = elim fault [ some e ↦ err e | none ↦ detected (take n r.bytes) r ]

  -- The report by the type of the database.
  unfoldable pub verify_dump : VerifyFaults → Bytes → Reader → Result Bytes VerifyReport
  unfolding verify_auto_detect
  verify_dump f type r =
      if text_eq type mysql || text_eq type postgres
      then verify_sql_dump type r
      else if text_eq type mongo
      then verify_mongo_archive order rfc3339 r
      else verify_auto_detect f.first_read f.first_fault r

module _ (setup : Setup) (f : VerifyFaults) (w : World setup) where
  fetch : Bytes → Storage → Result VerifyError Source
  fetch id s = do
    unless temp_failed f.temp
    let (file, done) =
        download setup.client s.provider id (record { written = []; faults = f.download_writes })
          w.bucket
    map_err download_failed done
    unless seek_failed f.seek
    ok (downloaded file.written)

  remote : Config → Result VerifyError Storage
  remote cfg = map_err remote_failed (new_storage_with_context f.aws cfg).1

  newest : Bytes → List BackupMetadata → Result VerifyError Bytes
  newest name [] = err (no_backups name)
  newest name (b ∷ bs) = ok b.backup_id

  latest_source : Config → DatabaseConfig → Result VerifyError (Source × Bytes)
  unfolding remote newest fetch
  latest_source cfg db = do
    s ← remote cfg
    backups ← map_err list_failed (list_backups setup.client s.provider db.name 1 w.bucket)
    id ← newest db.name backups
    source ← fetch id s
    ok (source, db.type)

  latest_backup : Bytes → Config → Result VerifyError (Source × Bytes)
  unfolding latest_source
  latest_backup id cfg = do
    fail_if (is_local cfg) local_mode
    db ← or_fail (get_database_by_id id cfg) (database_not_found id)
    latest_source cfg db

  backup_of : Bytes → Config → Result VerifyError (Source × Bytes)
  unfolding remote fetch
  backup_of id cfg = do
    fail_if (is_local cfg) local_mode
    s ← remote cfg
    source ← fetch id s
    ok (source, detect_db_type_from_filename id)

  -- The source, and the type of the database that is dumped in it.
  unfoldable pub source_of : VerifyFlags → Config → Result VerifyError (Source × Bytes)
  unfolding latest_backup backup_of
  source_of flags cfg =
      if not (is_empty flags.enc_file)
      then ok (local_file flags.enc_file, detect_db_type_from_filename flags.enc_file)
      else if flags.latest && not (is_empty flags.database_id)
      then latest_backup flags.database_id cfg
      else if not (is_empty flags.backup_id)
      then backup_of flags.backup_id cfg
      else err no_source

  unfoldable pub open_source : Source → Result VerifyError Reader
  unfolding open_path
  open_source (local_file path) = map_err open_failed (open_path f.open_file path w.disk)
  open_source (downloaded bytes) = ok (reader bytes)

  decrypted : AesEncryptor → Reader → Result VerifyError Bytes
  decrypted e r =
      let (buffer, done) = decrypt setup.gcm e r fresh in
      map_err decryption_failed done >> ok buffer.written

  module _ (order : Document → Document) (rfc3339 : ℤ → ℤ → Bytes) where
    -- From the source to the report.
    unfoldable pub verify_source : Config → Source × Bytes → Result VerifyError VerifyReport
    unfolding decrypted gzip_reader encryptor_of verify_dump open_source
    verify_source cfg (source, type) = do
      e ← map_err key_failed (encryptor_of f.read_key cfg.paths.key_file w.disk)
      sealed ← open_source source
      zipped ← decrypted e sealed
      plain ← map_err gzip_failed (gzip_reader setup.gzip f.partial zipped)
      map_err verification_failed (verify_dump order rfc3339 f type plain)

    -- The report that is printed.
    unfoldable pub run_verify :
        Paths → Bytes → ConfigFiles → VerifyFlags → Result VerifyError VerifyReport
    unfolding source_of verify_source
    run_verify paths path files flags = do
      cfg ← map_err load_failed (load_config paths path files)
      source ← source_of flags cfg
      verify_source cfg source
