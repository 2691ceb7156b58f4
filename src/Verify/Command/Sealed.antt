-- ===== src/Verify/Command/Sealed.antt =====
-- What `marmot verify` makes of a backup that the agent saved.
use marmot_cli.Common.{
  ℕ, ◌≡◌, refl, ap, ◌∙◌, Bool, false, [], Option, none, some, Bytes, ok, ℤ, is_empty,
}
use marmot_cli.Files.{find_file}
use marmot_cli.Streams.{reader, fresh}
use marmot_cli.Storage.{Time, BackupFile}
use marmot_cli.Crypto.{decrypt}
use marmot_cli.Config.{Config, DatabaseConfig, Paths}
use marmot_cli.Config.Databases.{ConfigFiles, load_config}
use marmot_cli.Agent.{Setup, Agent, World}
use marmot_cli.Agent.Programs.{Command, dump_command}
use marmot_cli.Agent.Upload.{SendFaults, map_err}
use marmot_cli.Agent.Backup.{BackupFaults, backup_name, backup}
use marmot_cli.Agent.Restore.Sealed.{backup-sealed}
use marmot_cli.Agent.Restore.RoundTrip.{IsNonce}
use marmot_cli.Commands.{open_path-found, encryptor_of, split_path}
use marmot_cli.Verify.Bson.{Document}
use marmot_cli.Verify.Report.{detect_db_type_from_filename}
use marmot_cli.Verify.Command.{
  VerifyFaults, VerifyFlags, Source, local_file, gzip_reader, verify_dump, source_of, open_source,
  decrypted, verify_source, run_verify, verification_failed,
}

module _ (setup : Setup) (a : Agent) (f : VerifyFaults) (now : World setup) where
  decrypted_lem :
      (sealed zipped : Bytes)
      → decrypt setup.gcm a.encryptor (reader sealed) fresh
        ≡ (record { written = zipped; faults = [] }, ok tt)
      → decrypted setup f now a.encryptor (reader sealed) ≡ ok zipped
  unfolding decrypted
  decrypted_lem sealed zipped e = rw e refl

  gzip_reader_lem :
      (zipped dump : Bytes)
      → setup.gzip.unzip zipped ≡ ok dump
      → gzip_reader setup.gzip f.partial zipped ≡ ok (reader dump)
  unfolding gzip_reader
  gzip_reader_lem zipped dump e = rw (e, gzip_reader) refl

  opened_lem :
      (path sealed : Bytes) (time : ℕ)
      → find_file (split_path path).0 (split_path path).1 now.disk
        ≡ some (record {
          dir = (split_path path).0;
          name = (split_path path).1;
          content = sealed;
          mod_time = time;
          is_dir = false;
        })
      → open_source setup f now (local_file path) ≡ ok (reader sealed)
  unfolding open_source
  opened_lem path sealed time e =
      rw
        (open_path-found f.open_file path now.disk
          (record {
            dir = (split_path path).0;
            name = (split_path path).1;
            content = sealed;
            mod_time = time;
            is_dir = false;
          })
          e refl)
        refl

  verify_source_lem :
      (order : Document → Document) (rfc3339 : ℤ → ℤ → Bytes) (cfg : Config) (source : Source)
      (type sealed zipped dump : Bytes)
      → encryptor_of f.read_key cfg.paths.key_file now.disk ≡ ok a.encryptor
      → open_source setup f now source ≡ ok (reader sealed)
      → decrypt setup.gcm a.encryptor (reader sealed) fresh
        ≡ (record { written = zipped; faults = [] }, ok tt)
      → setup.gzip.unzip zipped ≡ ok dump
      → verify_source setup f now order rfc3339 cfg (source, type)
        ≡ map_err verification_failed (verify_dump order rfc3339 f type (reader dump))
  unfolding verify_source
  verify_source_lem order rfc3339 cfg source type sealed zipped dump key opens plain dumped =
      rw (key, opens, decrypted_lem sealed zipped plain, gzip_reader_lem zipped dump dumped) refl

  run_verify-file :
      (order : Document → Document) (rfc3339 : ℤ → ℤ → Bytes) (paths : Paths) (path : Bytes)
      (files : ConfigFiles) (flags : VerifyFlags) (cfg : Config)
      → load_config paths path files ≡ ok cfg
      → is_empty flags.enc_file ≡ false
      → run_verify setup f now order rfc3339 paths path files flags
        ≡ verify_source setup f now order rfc3339 cfg
            (local_file flags.enc_file, detect_db_type_from_filename flags.enc_file)
  unfolding run_verify source_of
  run_verify-file order rfc3339 paths path files flags cfg loaded file = rw (loaded, file) refl

  -- A backup that succeeded, with a nonce of the cipher's size and where the last flush of the compressor
  -- did not fail, saved a file on which `marmot verify --file` under the same key reports what it reports
  -- on the dump that the dump program printed, read by the type that the file's path is taken for.
  pub run_verify-backup :
      (order : Document → Document) (rfc3339 : ℤ → ℤ → Bytes) (paths : Paths) (path : Bytes)
      (files : ConfigFiles) (flags : VerifyFlags) (cfg : Config) (db : DatabaseConfig) (wait : Bool)
      (b : BackupFaults) (g : SendFaults) (unix : ℕ) (created : Time) (w : World setup)
      {x : Option BackupFile}
      → b.gzip.close ≡ none
      → IsNonce setup a b
      → (backup setup a db wait b g unix created w).1 ≡ ok x
      → now.disk ≡ (backup setup a db wait b g unix created w).0.disk
      → load_config paths path files ≡ ok cfg
      → is_empty flags.enc_file ≡ false
      → split_path flags.enc_file ≡ (a.storage.base_dir, backup_name setup a db unix)
      → encryptor_of f.read_key cfg.paths.key_file now.disk ≡ ok a.encryptor
      → (c : Command) × (dump : Bytes) × (dump_command db ≡ some c)
        × ((setup.programs.run c [] w.databases).1 ≡ ok dump)
        × (run_verify setup f now order rfc3339 paths path files flags
            ≡ map_err verification_failed (
                verify_dump order rfc3339 f
                  (detect_db_type_from_filename flags.enc_file)
                  (reader dump)))
  run_verify-backup order rfc3339 paths path files flags cfg db wait b g unix created w closed n h
        same loaded file where_it_is key =
      let (c, dump, sealed, zipped, which, ran, plain, dumped, kept) =
        backup-sealed setup a db wait b g unix created w closed n h in
      let found = ap (find_file a.storage.base_dir (backup_name setup a db unix)) same ∙ kept in
      let opens = opened_lem flags.enc_file sealed created (rw where_it_is found) in
      (
        c,
        dump,
        which,
        ran,
        run_verify-file order rfc3339 paths path files flags cfg loaded file
            ∙ verify_source_lem order rfc3339 cfg (local_file flags.enc_file)
                (detect_db_type_from_filename flags.enc_file) sealed zipped dump key opens plain
                dumped,
      )
