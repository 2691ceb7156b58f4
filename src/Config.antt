-- ===== src/Config.antt =====
-- The configuration of internal/config/config.go. Reading and writing the file is viper's.
pub mod Validity
pub mod Databases
pub mod Examples
use marmot_cli.Common.{
  ℕ, suc, ◌+◌, Bool, true, false, not, ◌&&◌, ◌||◌, List, [], ◌∷◌, Option, none, some, Bytes, codes,
  text_eq, is_empty, Result, ok, err, ℤ, pos, negsuc, ltb_ℤ, if◌then◌else◌,
}
use marmot_cli.S3.Settings.{S3Config, ConfigError}
use marmot_cli.S3.Settings

pub record LocalStorageConfig : Type 0 where
  pub path : Bytes
  pub retention_days : ℤ
  pub min_free_space_gb : ℤ

pub record DatabaseConfig : Type 0 where
  pub id : Bytes
  pub type : Bytes
  pub container_id : Bytes
  pub dsn : Bytes
  pub name : Bytes
  pub user : Bytes
  pub password : Bytes
  pub host : Bytes
  pub port : ℤ
  pub schedule : Bytes
  pub enabled : Bool

-- Of the paths, those that the modelled code uses.
pub record Paths : Type 0 where
  pub config_file : Bytes
  pub key_file : Bytes
  pub state_db : Bytes
  pub pid_file : Bytes
  pub backups_dir : Bytes

pub record Config : Type 0 where
  pub storage_type : Bytes
  pub local : LocalStorageConfig
  pub s3 : S3Config
  pub databases : List DatabaseConfig
  pub paths : Paths

abbrev pub local_storage : Bytes
local_storage = codes "local"

abbrev pub s3_storage : Bytes
s3_storage = codes "s3"

abbrev pub is_local : Config → Bool
is_local c = text_eq c.storage_type local_storage

abbrev pub is_s3 : Config → Bool
is_s3 c = text_eq c.storage_type s3_storage

unfoldable pub get_storage_path : Config → Bytes
get_storage_path c =
    if is_local c
    then (if not (is_empty c.local.path) then c.local.path else c.paths.backups_dir)
    else c.s3.bucket

abbrev pub mysql : Bytes
mysql = codes "mysql"

abbrev pub postgres : Bytes
postgres = codes "postgres"

abbrev pub mongo : Bytes
mongo = codes "mongo"

pub data Invalid : Type 0 where
  bad_storage_type : Invalid
  s3_invalid : ConfigError → Invalid
  id_required type_unknown target_required : ℕ → Invalid

-- The checks on one database, which is the `i`-th.
unfoldable pub validate_database : ℕ → DatabaseConfig → Result Invalid (Unit {0})
validate_database i db =
    if is_empty db.id
    then err (id_required i)
    else if not (text_eq db.type mysql)
        && (not (text_eq db.type postgres) && not (text_eq db.type mongo))
    then err (type_unknown i)
    else if is_empty db.container_id && is_empty db.dsn
    then err (target_required i)
    else ok tt

first_error : Result Invalid (Unit {0}) → Result Invalid (Unit {0}) → Result Invalid (Unit {0})
first_error (err e) rest = err e
first_error (ok done) rest = rest

unfoldable pub validate_databases : ℕ → List DatabaseConfig → Result Invalid (Unit {0})
unfolding first_error
validate_databases i [] = ok tt
validate_databases i (db ∷ dbs) =
    first_error (validate_database i db) (validate_databases (suc i) dbs)

validate_s3_config : Config → Config × Result Invalid (Unit {0})
validate_s3_config c =
    let (s3, r) = Settings.validate c.s3 in
    (record c { s3 = s3 }, elim r [ err e ↦ err (s3_invalid e) | ok done ↦ ok tt ])

-- The databases are checked where the storage is valid.
then_databases : Config × Result Invalid (Unit {0}) → Config × Result Invalid (Unit {0})
then_databases (c, err e) = (c, err e)
then_databases (c, ok done) = (c, validate_databases 0 c.databases)

-- The configuration comes back with the defaults that the S3 part of it was given.
unfoldable pub validate : Config → Config × Result Invalid (Unit {0})
unfolding validate_s3_config then_databases
validate c =
    if text_eq c.storage_type local_storage
    then then_databases (c, ok tt)
    else if text_eq c.storage_type s3_storage
    then then_databases (validate_s3_config c)
    else (c, err bad_storage_type)

-- `hostname` is what `os.Hostname` gives, empty where it fails.
unfoldable pub get_server_id : Bytes → Config → Bytes
get_server_id hostname c =
    if is_s3 c then c.s3.server_id else if is_empty hostname then local_storage else hostname

unfoldable pub find_database : Bytes → List DatabaseConfig → Option DatabaseConfig
find_database id [] = none
find_database id (db ∷ dbs) = if text_eq db.id id then some db else find_database id dbs

abbrev pub get_database_by_id : Bytes → Config → Option DatabaseConfig
get_database_by_id id c = find_database id c.databases

unfoldable pub should_cleanup : Config → Bool
should_cleanup c =
    if not (is_local c)
    then false
    else ltb_ℤ (pos 0) c.local.retention_days || ltb_ℤ (pos 0) c.local.min_free_space_gb
