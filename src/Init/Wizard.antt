-- ===== src/Init/Wizard.antt =====
-- `runInit` of cmd/marmot/cmd/init.go.
pub mod Key
pub mod Usable
use marmot_cli.Common.{
  ℕ, ◌+◌, Bool, true, false, not, ◌&&◌, ◌||◌, List, [], ◌∷◌, ◌++◌, Option, none, some, Bytes, codes,
  text_eq, is_empty, length, ◌==◌, decimal, strip_prefix, Result, ok, err, ◌>>=◌, ◌>>◌, fail_if, ℤ,
  pos, if◌then◌else◌,
}
use marmot_cli.Files.{Disk}
use marmot_cli.S3.Settings.{S3Config}
use marmot_cli.Crypto.{
  AesEncryptor, CryptoError, new_aes_encryptor, generate_key, load_key, save_key_to_file,
}
use marmot_cli.Config.{
  Config, LocalStorageConfig, DatabaseConfig, Paths, local_storage, s3_storage, find_database,
}
use marmot_cli.Config.Databases.{ConfigFiles, SaveFaults, save_config, load_config}
use marmot_cli.Remote.{new_storage_with_context}
use marmot_cli.Agent.Upload.{map_err}
use marmot_cli.Agent.Backup.{unless}
use marmot_cli.Commands.{split_path}
use marmot_cli.Discovery.{
  DatabaseInfo, default_string, default_int, default_port_for_type, build_discovered_id,
}
use marmot_cli.Init.Prompts.{Stdin, prompt, prompt_password, prompt_select, confirm, atoi}
use marmot_cli.Init.{
  InitError, InitFaults, bucket_required, cancelled, mkdir_failed, config_dir_failed, save_failed,
  load_failed, generate_failed, save_key_failed, no_s3, configure_cloud_storage,
  configure_local_storage, build_db_config_from_discovery, select_databases,
}

-- What `var cfg config.Config` is, with the default paths.
abbrev pub empty_config : Paths → Config
empty_config paths = record {
  storage_type = [];
  local = record { path = []; retention_days = pos 0; min_free_space_gb = pos 0 };
  s3 = no_s3;
  databases = [];
  paths = paths;
}

none_found : List DatabaseInfo → Stdin → Result InitError Stdin
none_found [] stdin = let (go_on, rest) = confirm stdin in fail_if (not go_on) cancelled >> ok rest
none_found (db ∷ dbs) stdin = ok stdin

with_databases : Config → List DatabaseConfig × Stdin → Config
with_databases cfg (dbs, rest) = record cfg { databases = dbs }

module _ (f : InitFaults) where
  -- The result of `LoadKey` is not looked at.
  save_key : Bytes → ℕ → Bytes → Disk → Disk × Result InitError (Unit {0})
  save_key path now key disk =
      let (e, loaded) = load_key key new_aes_encryptor in
      let (dir, name) = split_path path in
      let (disk', saved) = save_key_to_file f.write_key dir name now e disk in
      (disk', map_err save_key_failed saved)

  save_generated :
      Bytes
      → ℕ
      → Disk
      → Option Bytes
      → Result CryptoError Bytes
      → Disk × Result InitError (Unit {0})
  unfolding save_key
  save_generated path now disk mkdir (err e) = (disk, err (generate_failed e))
  save_generated path now disk (some e) (ok key) = (disk, err (config_dir_failed e))
  save_generated path now disk none (ok key) = save_key path now key disk

  -- A new key, in the place of the one that may be there.
  unfoldable pub init_key : Bytes → ℕ → Disk → Disk × Result InitError (Unit {0})
  unfolding save_generated
  init_key path now disk = save_generated path now disk f.mkdir_config (generate_key f.random)

  pub init_saved :
      Config
      → ConfigFiles
      → Disk × Result InitError (Unit {0})
      → (Disk × ConfigFiles) × Result InitError Config
  init_saved cfg files (disk, err e) = ((disk, files), err e)
  init_saved cfg files (disk, ok done) =
      let (files', saved) = save_config f.save cfg cfg.paths.config_file files in
      ((disk, files'), map_err save_failed saved >> ok cfg)

  init_configured :
      ℕ
      → Disk
      → ConfigFiles
      → Result InitError Config
      → (Disk × ConfigFiles) × Result InitError Config
  unfolding init_key init_saved
  init_configured now disk files (err e) = ((disk, files), err e)
  init_configured now disk files (ok cfg) =
      init_saved cfg files (init_key cfg.paths.key_file now disk)

module _ (in_home : Bytes → Bytes) (f : InitFaults) where
  configure_storage : Paths → Stdin → Result InitError (Config × Stdin)
  unfolding configure_cloud_storage configure_local_storage prompt_select
  configure_storage paths stdin =
      let (kind, s) = prompt_select (codes "cloud") (codes "local" ∷ []) stdin in
      if text_eq kind (codes "cloud")
      then configure_cloud_storage f.aws (empty_config paths) s
      else configure_local_storage in_home f.mkdir_backups (empty_config paths) s

  -- The configuration, before a key is made.
  unfoldable pub configured : Paths → List DatabaseInfo → Stdin → Result InitError Config
  unfolding configure_storage none_found select_databases with_databases
  configured paths found stdin = do
    (cfg, s1) ← configure_storage paths stdin
    s2 ← none_found found s1
    ok (with_databases cfg (select_databases found s2))

  -- `found` are the databases of the containers and those of the host, merged. The daemon that is then
  -- started in the background changes nothing of this.
  unfoldable pub run_init :
      Paths
      → List DatabaseInfo
      → Stdin
      → ℕ
      → Disk
      → ConfigFiles
      → (Disk × ConfigFiles) × Result InitError Config
  unfolding configured init_configured
  run_init paths found stdin now disk files =
      init_configured f now disk files (configured paths found stdin)
