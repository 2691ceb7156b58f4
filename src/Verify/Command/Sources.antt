-- ===== src/Verify/Command/Sources.antt =====
-- Where `marmot verify` finds a backup, and where it finds none.
use marmot_cli.Common.{
  ◌≡◌, ◌≢◌, true, false, List, [], ◌∷◌, some, arith, Bytes, is_empty, ok, ◌>>=◌, >>=-ne-ok,
  >>-eq-ok, fail_if, or_fail, ℤ,
}
use marmot_cli.S3.Client.{BackupMetadata, list_backups}
use marmot_cli.S3.Listing.{list_backups_named}
use marmot_cli.Config.{Config, DatabaseConfig, Paths, is_local, get_database_by_id}
use marmot_cli.Config.Databases.{ConfigFiles, load_config}
use marmot_cli.Remote.{Storage}
use marmot_cli.Agent.{Setup, World}
use marmot_cli.Agent.Upload.{map_err, map_err-eq-ok}
use marmot_cli.Verify.Bson.{Document}
use marmot_cli.Verify.Report.{VerifyReport}
use marmot_cli.Verify.Command.{
  VerifyFaults, VerifyFlags, Source, newest, remote, latest_source, latest_backup, source_of,
  run_verify, list_failed, local_mode, database_not_found, load_failed,
}

-- Every database has a name.
abbrev pub IsNamed : Config → Type 0
IsNamed c =
    (id : Bytes) (db : DatabaseConfig)
    → get_database_by_id id c ≡ some db
    → is_empty db.name ≡ false

module _ (setup : Setup) (f : VerifyFaults) (w : World setup) where
  newest-eq-ok :
      (name : Bytes) (bs : List BackupMetadata) {id : Bytes}
      → newest setup f w name bs ≡ ok id
      → bs ≢ []
  unfolding newest
  newest-eq-ok name [] h e = cc
  newest-eq-ok name (b ∷ bs) h e = cc

  listed :
      (s : Storage) (db : DatabaseConfig) {bs : List BackupMetadata}
      → is_empty db.name ≡ false
      → map_err list_failed (list_backups setup.client s.provider db.name 1 w.bucket) ≡ ok bs
      → bs ≡ []
  listed s db named h =
      list_backups_named setup.client s.provider db.name 1 w.bucket named
        (map_err-eq-ok list_failed (list_backups setup.client s.provider db.name 1 w.bucket) h)

  latest_source-fails :
      (cfg : Config) (db : DatabaseConfig) {found : Source × Bytes}
      → is_empty db.name ≡ false
      → latest_source setup f w cfg db ≢ ok found
  unfolding latest_source
  latest_source-fails cfg db {found} named = >>=-ne-ok (remote setup f w cfg) _ λ s _.
      >>=-ne-ok (map_err list_failed (list_backups setup.client s.provider db.name 1 w.bucket)) _
        λ bs got.
          >>=-ne-ok (newest setup f w db.name bs) _
            λ id some_id. absurd (newest-eq-ok db.name bs some_id (listed s db named got))

  -- The database that is asked for is in the configuration.
  found_db :
      (cfg : Config) (id : Bytes) {db : DatabaseConfig}
      → or_fail (get_database_by_id id cfg) (database_not_found id) ≡ ok db
      → get_database_by_id id cfg ≡ some db
  found_db cfg id h = ground arith

  latest_backup-fails :
      (id : Bytes) (cfg : Config) {found : Source × Bytes}
      → IsNamed cfg
      → latest_backup setup f w id cfg ≢ ok found
  unfolding latest_backup
  latest_backup-fails id cfg {found} named h =
      let find = or_fail (get_database_by_id id cfg) (database_not_found id) in
      let (_, rest) =
        >>-eq-ok (fail_if (is_local cfg) local_mode) (find >>= λ db. latest_source setup f w cfg db)
          h in
      >>=-ne-ok find (λ db. latest_source setup f w cfg db)
        (λ db got. latest_source-fails cfg db (named id db (found_db cfg id got))) rest

  source_of-latest :
      (flags : VerifyFlags) (cfg : Config) {found : Source × Bytes}
      → flags.enc_file ≡ []
      → flags.latest ≡ true
      → is_empty flags.database_id ≡ false
      → IsNamed cfg
      → source_of setup f w flags cfg ≢ ok found
  unfolding source_of is_empty
  source_of-latest flags cfg {found} no_file latest id named h =
      latest_backup-fails flags.database_id cfg {found = found} named
        (rw (no_file, latest, id) at h)

  module _ (order : Document → Document) (rfc3339 : ℤ → ℤ → Bytes) where
    -- Where each database of the configuration has a name: with `--db` and `--latest` and no file the command
    -- reports on no backup, whatever the bucket holds. It looks for backups of the database by its name, and
    -- none is listed under a name.
    pub run_verify-latest :
        (paths : Paths) (path : Bytes) (files : ConfigFiles) (flags : VerifyFlags)
        (report : VerifyReport)
        → flags.enc_file ≡ []
        → flags.latest ≡ true
        → is_empty flags.database_id ≡ false
        → ((cfg : Config) → load_config paths path files ≡ ok cfg → IsNamed cfg)
        → run_verify setup f w order rfc3339 paths path files flags ≢ ok report
    unfolding run_verify
    run_verify-latest paths path files flags report no_file latest id named =
        >>=-ne-ok (map_err load_failed (load_config paths path files)) _ λ cfg loaded.
          >>=-ne-ok (source_of setup f w flags cfg) _ λ found got. absurd (
            source_of-latest flags cfg no_file latest id
              (named cfg (map_err-eq-ok load_failed (load_config paths path files) loaded)) got)
