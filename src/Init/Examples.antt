-- ===== src/Init/Examples.antt =====
-- A run of `marmot init` for local storage, and its theorems at it.
use marmot_cli.Common.{
  ◌≡◌, refl, inl, pos, true, [], ◌∷◌, none, arith, Bytes, codes, ok, err, text_eq, is_empty, All,
  length, decimal_value, false,
}
use marmot_cli.Crypto.{generate_key, save_key_to_file, load_key}
use marmot_cli.Crypto.Examples.{key_32}
use marmot_cli.Commands.{encryptor_of}
use marmot_cli.Config.{
  Config, mysql, local_storage, validate, validate_databases, validate_database,
}
use marmot_cli.Config.Databases.{ConfigFiles, save_config}
use marmot_cli.Config.Examples.{paths}
use marmot_cli.PidFile.{trim_left, trim_right}
use marmot_cli.Discovery.{DatabaseInfo}
use marmot_cli.Init.{InitFaults}
use marmot_cli.Init.Prompts.{Stdin, confirm, prompt, atoi}
use marmot_cli.Init.Wizard.{empty_config, run_init}
use marmot_cli.Init.Wizard.Key.{run_init-key}
use marmot_cli.Init.Wizard.Usable.{run_init-validate}

abbrev my_sql : DatabaseInfo
my_sql = record {
  container_id = codes "c1";
  container_name = codes "shop";
  type = mysql;
  version = [];
  host = codes "localhost";
  port = 3306;
  database = codes "mysql";
  user = codes "root";
  password = [];
}

abbrev no_faults : InitFaults
no_faults = record {
  aws = none;
  mkdir_backups = none;
  random = ok key_32;
  mkdir_config = none;
  write_key = none;
  save = record { mkdir = none; write = none; chmod = none; left = none };
}

-- Local storage with the defaults, and the database of a container.
abbrev answers : Stdin
answers = codes "local" ∷ [] ∷ [] ∷ [] ∷ codes "y" ∷ [] ∷ []

abbrev no_files : ConfigFiles
no_files path = err (codes "no such file")

abbrev in_root : Bytes → Bytes
in_root rest = rest

abbrev chosen : Config
chosen = record (empty_config paths) {
  storage_type = local_storage;
  local = record {
    path = codes "/var/lib/marmot/backups";
    retention_days = pos 30;
    min_free_space_gb = pos 10;
  };
  databases =
      record {
        id = codes "c1-mysql";
        type = mysql;
        container_id = codes "c1";
        dsn = [];
        name = codes "mysql";
        user = codes "root";
        password = [];
        host = codes "localhost";
        port = pos 3306;
        schedule = codes "0 2 * * *";
        enabled = true;
      }
      ∷ [];
}

run_here : (run_init in_root no_faults paths (my_sql ∷ []) answers 5 [] no_files).1 ≡ ok chosen
unfolding run_init text_eq is_empty trim_right trim_left decimal_value confirm prompt generate_key
    save_key_to_file load_key save_config atoi
run_here = refl

key_32-full : (k : Bytes) → no_faults.random ≡ ok k → length k ≡ 32
key_32-full k h = ground arith

run_init-key_example :
    (key : Bytes) × (no_faults.random ≡ ok key)
    × (encryptor_of [] chosen.paths.key_file
          (run_init in_root no_faults paths (my_sql ∷ []) answers 5 [] no_files).0.0
        ≡ ok (record { key = key }))
run_init-key_example =
    run_init-key no_faults 5 in_root paths (my_sql ∷ []) answers [] no_files [] key_32-full run_here

chosen-validate : (validate chosen).1 ≡ ok tt
unfolding validate validate_databases validate_database text_eq is_empty
chosen-validate = refl

run_init-validate_example : All (λ db. is_empty db.container_id ≡ false) chosen.databases
run_init-validate_example =
    run_init-validate in_root no_faults paths (my_sql ∷ []) answers 5 [] no_files (inl refl, tt)
      run_here chosen-validate
