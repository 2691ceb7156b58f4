-- ===== src/Commands/Examples/Runs.antt =====
-- The theorems on the commands that run, at one server.
use marmot_cli.Common.{
  ◌≡◌, ◌≢◌, ◌+◌, refl, ℕ, true, false, [], ◌∷◌, none, arith, codes, ok, text_eq, is_empty,
}
use marmot_cli.Config.{
  Config, is_local, find_database, validate, validate_databases, validate_database,
}
use marmot_cli.Storage.Local.{new_local_storage}
use marmot_cli.Storage.Queue.Open.{new_sqlite_queue}
use marmot_cli.Crypto.{load_key, load_key_from_file}
use marmot_cli.Files.{find_file}
use marmot_cli.S3.Key.{split_last}
use marmot_cli.Commands.{encryptor_of, split_path}
use marmot_cli.Config.Databases.{load_config}
use marmot_cli.Config.Examples.{paths, with_shop}
use marmot_cli.Agent.Restore.RoundTrip.{no_faults}
use marmot_cli.Agent.Examples.{toy, fine, fine_send}
use marmot_cli.Verify.Report.{empty_report}
use marmot_cli.Verify.Command.{VerifyFlags, run_verify}
use marmot_cli.Verify.Command.Sources.{IsNamed, run_verify-latest}
use marmot_cli.Commands.Prepare.{PrepareFaults, Parts, prepare}
use marmot_cli.Commands.Prepare.Made.{IsMade, prepare-IsMade}
use marmot_cli.Storage.Queue.Open.{query_only}
use marmot_cli.Crypto.Examples.{keyed}
use marmot_cli.Commands.Restore.{RestoreFlags, RestoreCommandFaults}
use marmot_cli.Commands.Backup.{Happening, run_backup}
use marmot_cli.Commands.Backup.Runs.{run_backup-refused}
use marmot_cli.Commands.Examples.{
  key_file, as_it_is, no_time, cloud_files, user_probe, user_probe-IsUserQueue, server,
  no_verify_faults, sqlite,
}

-- Every database of the configuration has the name `shop`.
cloud-IsNamed : (cfg : Config) → load_config paths [] cloud_files ≡ ok cfg → IsNamed cfg
unfolding load_config is_empty find_database
cloud-IsNamed cfg loaded id db h = ground arith

abbrev latest_shop : VerifyFlags
latest_shop = record { backup_id = []; database_id = codes "shop"; latest = true; enc_file = [] }

run_verify-latest_example :
    run_verify toy no_verify_faults server as_it_is no_time paths [] cloud_files latest_shop
    ≢ ok (empty_report (codes "mysql"))
unfolding is_empty
run_verify-latest_example =
    run_verify-latest toy no_verify_faults server as_it_is no_time paths [] cloud_files latest_shop
      (empty_report (codes "mysql")) refl refl refl cloud-IsNamed

abbrev restore_faults : RestoreCommandFaults
restore_faults = record {
  mkdir = none;
  made =
      record key_file { dir = codes "/var/lib/marmot"; name = codes "backups"; is_dir = true } ∷ [];
  probe = user_probe;
  aws = none;
  read_key = [];
  response = codes "y";
  restore = no_faults [];
  verify = no_verify_faults;
}

abbrev of_shop : RestoreFlags
of_shop = record {
  database_id = codes "shop";
  backup_id = [];
  enc_file = [];
  force = true;
  dry_run = false;
}

abbrev prepare_faults : PrepareFaults
prepare_faults = record { mkdir = none; probe = user_probe; aws = none; read_key = [] }

abbrev happens : ℕ → Happening
happens i = record { faults = fine; send = fine_send; unix = 7 + i; created = 9 }

cloud_loads : (cfg : Config) → load_config paths [] cloud_files ≡ ok cfg → is_local cfg ≡ false
unfolding load_config is_empty text_eq
cloud_loads cfg loaded = ground arith

run_backup-refused_example :
    let (w', r) =
      run_backup toy sqlite happens prepare_faults paths [] cloud_files true [] server in
    (w'.table ≡ server.table) × (w'.bucket ≡ server.bucket)
run_backup-refused_example =
    run_backup-refused toy sqlite happens prepare_faults paths [] cloud_files true [] server
      user_probe-IsUserQueue cloud_loads

abbrev shop_parts : Parts
shop_parts = record {
  agent = record {
    config = with_shop;
    storage = record { base_dir = paths.backups_dir };
    remote = none;
    encryptor = keyed;
  };
  connection = query_only;
}

prepared : prepare prepare_faults server.disk with_shop ≡ ok shop_parts
unfolding prepare validate validate_databases validate_database new_local_storage new_sqlite_queue
    encryptor_of load_key load_key_from_file find_file split_path split_last text_eq is_empty
prepared = refl

prepare-IsMade_example : IsMade prepare_faults with_shop shop_parts
prepare-IsMade_example = prepare-IsMade prepare_faults server.disk with_shop prepared
