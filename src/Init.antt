-- ===== src/Init.antt =====
-- The questions of `marmot init` in cmd/marmot/cmd/init.go: the storage, and which of the databases that were
-- found are taken. Checking a connection only prints.
pub mod Prompts
pub mod Wizard
pub mod Discover
pub mod Chosen
mod Examples
use marmot_cli.Common.{
  ℕ, ◌+◌, Bool, true, false, not, ◌&&◌, ◌||◌, List, [], ◌∷◌, ◌++◌, Option, none, some, Bytes, codes,
  text_eq, is_empty, length, ◌==◌, decimal, strip_prefix, Result, ok, err, ◌>>=◌, ◌>>◌, fail_if, ℤ,
  pos, if◌then◌else◌,
}
use marmot_cli.Files.{Disk}
use marmot_cli.S3.Settings.{S3Config}
use marmot_cli.Crypto.{
  AesEncryptor, WriteFault, CryptoError, new_aes_encryptor, generate_key, load_key,
  save_key_to_file,
}
use marmot_cli.Config.{
  Config, LocalStorageConfig, DatabaseConfig, Paths, local_storage, s3_storage, find_database,
}
use marmot_cli.Config.Databases.{ConfigFiles, SaveFaults, save_config, load_config}
use marmot_cli.Remote.{new_storage_with_context}
use marmot_cli.Agent.Upload.{map_err}
use marmot_cli.Agent.Backup.{unless}
use marmot_cli.Commands.{split_path}
use marmot_cli.Discovery.{
  DatabaseInfo, default_string, default_int, default_port_for_type, build_discovered_id,
}
use marmot_cli.Init.Prompts.{Stdin, prompt, prompt_password, prompt_select, confirm, atoi}

pub data InitError : Type 0 where
  bucket_required access_key_required secret_key_required server_id_required cancelled : InitError
  mkdir_failed config_dir_failed save_failed load_failed : Bytes → InitError
  generate_failed save_key_failed : CryptoError → InitError

pub record InitFaults : Type 0 where
  pub aws : Option Bytes
  pub mkdir_backups : Option Bytes
  pub random : Result Bytes Bytes
  pub mkdir_config : Option Bytes
  pub write_key : WriteFault
  pub save : SaveFaults

abbrev no_s3 : S3Config
no_s3 = record {
  provider = [];
  endpoint = [];
  bucket = [];
  region = [];
  access_key = [];
  secret_key = [];
  path_style = false;
  prefix = [];
  server_id = [];
}

-- The default endpoint of the prompt.
default_endpoint : Bytes → Bytes
default_endpoint provider =
    if text_eq provider (codes "minio") then codes "http://localhost:9000" else []

-- Where the storage cannot be made the user is asked whether to go on.
tested : Bool → Stdin → Config → Result InitError (Config × Stdin)
tested true stdin cfg = ok (cfg, stdin)
tested false stdin cfg =
    let (go_on, rest) = confirm stdin in fail_if (not go_on) cancelled >> ok (cfg, rest)

made {ℓ κ} : {E : Type ℓ} {A : Type κ} → Result E A → Bool
made (ok a) = true
made (err e) = false

-- The connection is tested with a copy of the settings.
unfoldable pub configure_cloud_storage :
    Option Bytes → Config → Stdin → Result InitError (Config × Stdin)
unfolding default_endpoint tested made
configure_cloud_storage aws cfg stdin =
    let (selected, s1) =
      prompt_select (codes "r2")
        (codes "s3" ∷ codes "b2" ∷ codes "wasabi" ∷ codes "minio" ∷ codes "other" ∷ []) stdin in
    let (provider, s2) =
      if text_eq selected (codes "other") then prompt (codes "s3") s1 else (selected, s1) in
    let (endpoint, s3) = prompt (default_endpoint provider) s2 in
    let (bucket, s4) = prompt [] s3 in
    let (region, s5) = prompt [] s4 in
    let (access_key, s6) = prompt_password s5 in
    let (secret_key, s7) = prompt_password s6 in
    let (server_id, s8) = prompt [] s7 in
    let (prefix, s9) = prompt [] s8 in
    let settings : S3Config = record {
      provider = provider;
      endpoint = endpoint;
      bucket = bucket;
      region = region;
      access_key = access_key;
      secret_key = secret_key;
      path_style = text_eq provider (codes "minio");
      prefix = prefix;
      server_id = server_id;
    } in
    let chosen : Config = record cfg { storage_type = s3_storage; s3 = settings } in
    do
      fail_if (is_empty bucket) bucket_required
      fail_if (is_empty access_key) access_key_required
      fail_if (is_empty secret_key) secret_key_required
      fail_if (is_empty server_id) server_id_required
      tested (made (new_storage_with_context aws chosen).1) s9 chosen

-- `~/` is the home directory, below which `in_home` names the rest of the path.
unfoldable pub configure_local_storage :
    (Bytes → Bytes) → Option Bytes → Config → Stdin → Result InitError (Config × Stdin)
unfolding strip_prefix
configure_local_storage in_home mkdir cfg stdin =
    let (typed, s1) = prompt [] stdin in
    let custom = if is_empty typed then cfg.paths.backups_dir else typed in
    let path : Bytes = elim (strip_prefix (codes "~/") custom) [
      | none ↦ custom
      | some rest ↦ in_home rest
    ] in
    let (retention, s2) = prompt (codes "30") s1 in
    let (space, s3) = prompt (codes "10") s2 in
    do
      unless mkdir_failed mkdir
      ok (
        record cfg {
          storage_type = local_storage;
          local = record {
            path = path;
            retention_days = (atoi retention).0;
            min_free_space_gb = (atoi space).0;
          };
        },
        s3,
      )

-- The port that was typed, where it is a number.
typed_port : Bytes → ℤ → ℤ
typed_port text port = let (n, good) = atoi text in if good then n else port

unfoldable pub config_of : DatabaseInfo → Bytes → Stdin → DatabaseConfig × Stdin
unfolding typed_port build_discovered_id
config_of db schedule stdin =
    let (name, s1) = prompt (default_string db.database (codes "postgres")) stdin in
    let (user, s2) = prompt (default_string db.user (codes "postgres")) s1 in
    let (password, s3) = prompt [] s2 in
    let (host, s4) = prompt (default_string db.host (codes "localhost")) s3 in
    let (port, s5) = prompt (decimal (default_int db.port (default_port_for_type db.type))) s4 in
    let in_container : DatabaseConfig = record {
      id = build_discovered_id db;
      type = db.type;
      container_id = db.container_id;
      dsn = [];
      name = db.database;
      user = db.user;
      password = db.password;
      host = db.host;
      port = pos db.port;
      schedule = schedule;
      enabled = true;
    } in
    if is_empty db.container_id
    then (
      record in_container {
        name = name;
        user = user;
        password = password;
        host = host;
        port = typed_port port (pos db.port);
      },
      s5,
    )
    else (in_container, stdin)

unfoldable pub build_db_config_from_discovery : DatabaseInfo → Stdin → Option DatabaseConfig × Stdin
unfolding config_of
build_db_config_from_discovery db stdin =
    let (wanted, s1) = confirm stdin in
    let (schedule, s2) = prompt (codes "0 2 * * *") s1 in
    let (c, s3) = config_of db schedule s2 in if wanted then (some c, s3) else (none, s1)

with_config : Option DatabaseConfig → List DatabaseConfig → List DatabaseConfig
with_config none dbs = dbs
with_config (some c) dbs = c ∷ dbs

-- The databases that the user takes.
unfoldable pub select_databases : List DatabaseInfo → Stdin → List DatabaseConfig × Stdin
unfolding build_db_config_from_discovery with_config
select_databases [] stdin = ([], stdin)
select_databases (db ∷ dbs) stdin =
    let (c, s1) = build_db_config_from_discovery db stdin in
    let (cs, s2) = select_databases dbs s1 in (with_config c cs, s2)
