-- ===== src/Config/Examples.antt =====
-- One database in a container, one behind a connection string, and the theorems at them.
use marmot_cli.Common.{
  ◌≡◌, ◌↔◌, refl, inl, true, false, List, [], ◌∷◌, none, some, Bytes, codes, text_eq, is_empty,
  Result, ok, err, pos, any_of, keep_if, if◌then◌else◌, strip_prefix, decimal_value,
}
use marmot_cli.S3.Settings.{S3Config}
use marmot_cli.Config.{Config, DatabaseConfig, Paths, validate, find_database, local_storage}
use marmot_cli.Config.Validity.{IsUsable, IsUsableConfig, validate-IsUsableConfig}
use marmot_cli.Config.Databases.{
  ConfigFiles, SaveFaults, Url, ParsedDsn, AddFlags, duplicate_id, normalize_dsn, replace_first,
  parsed_of, connection, new_database, added, removed,
}
use marmot_cli.Config.Databases.Unique.{Distinct, added-Distinct}
use marmot_cli.Config.Databases.Commands.{
  AllGood, Command, adds, removes, apply, run_commands, run_commands-AllGood,
}
use marmot_cli.Config.Databases.Elsewhere.{apply_elsewhere}

abbrev pub paths : Paths
paths = record {
  config_file = codes "/etc/marmot/config.yaml";
  key_file = codes "/etc/marmot/key.bin";
  state_db = codes "/var/lib/marmot/state.db";
  pid_file = codes "/var/lib/marmot/marmot.pid";
  backups_dir = codes "/var/lib/marmot/backups";
}

abbrev pub no_s3 : S3Config
no_s3 = record {
  provider = [];
  endpoint = [];
  bucket = [];
  region = [];
  access_key = [];
  secret_key = [];
  path_style = false;
  prefix = [];
  server_id = [];
}

abbrev pub shop : DatabaseConfig
shop = record {
  id = codes "shop";
  type = codes "mysql";
  container_id = codes "c1";
  dsn = [];
  name = codes "shop";
  user = codes "root";
  password = [];
  host = codes "localhost";
  port = pos 0;
  schedule = codes "0 2 * * *";
  enabled = true;
}

abbrev pub with_shop : Config
with_shop = record {
  storage_type = local_storage;
  local = record { path = []; retention_days = pos 7; min_free_space_gb = pos 0 };
  s3 = no_s3;
  databases = shop ∷ [];
  paths = paths;
}

-- A parser that knows one address.
abbrev one_url : Url
one_url = record {
  user = some (codes "ann", some (codes "pw"));
  hostname = codes "db";
  port = codes "5433";
  path = codes "/app";
}

abbrev parse_one : Bytes → Result Bytes Url
parse_one s =
    if text_eq s (codes "http://ann:pw@db:5433/app") then ok one_url else err (codes "bad url")

abbrev app_flags : AddFlags
app_flags = record {
  type = codes "postgres";
  id = codes "app";
  dsn = codes "postgresql://ann:pw@db:5433/app";
  container_id = [];
  name = [];
  user = [];
  password = [];
  host = codes "localhost";
  port = pos 0;
  schedule = codes "0 2 * * *";
}

abbrev app_connection : ParsedDsn
app_connection = record {
  user = codes "ann";
  password = codes "pw";
  host = codes "db";
  name = codes "app";
  port = pos 5433;
}

abbrev with_both : Config
with_both = record with_shop {
  databases = shop ∷ new_database parse_one app_flags app_connection ∷ [];
}

app_added : added parse_one app_flags with_shop ≡ ok with_both
unfolding added connection normalize_dsn replace_first parsed_of find_database text_eq is_empty
    strip_prefix decimal_value
app_added = refl

shop_again :
    added parse_one (record app_flags { id = codes "shop" }) with_shop
    ≡ err (duplicate_id (codes "shop"))
unfolding added find_database text_eq
shop_again = refl

shop_removed :
    removed (codes "shop") with_both
    ≡ ok (record with_both { databases = new_database parse_one app_flags app_connection ∷ [] })
unfolding removed any_of keep_if text_eq
shop_removed = refl

shop-IsUsable : IsUsable shop
unfolding is_empty
shop-IsUsable = record { has_id = refl; has_type = inl refl; has_target = inl refl }

validate-IsUsableConfig_example : ((validate with_shop).1 ≡ ok tt) ↔ IsUsableConfig with_shop
validate-IsUsableConfig_example = validate-IsUsableConfig with_shop

abbrev no_faults : SaveFaults
no_faults = record { mkdir = none; write = none; chmod = none; left = none }

abbrev one_file : ConfigFiles
one_file path = ok with_shop

-- The write breaks off, and what is left is no YAML.
abbrev broken : SaveFaults
broken = record no_faults { write = some (codes "disk full"); left = some (err (codes "yaml")) }

abbrev history : List Command
history =
    adds no_faults [] app_flags
    ∷ adds broken [] app_flags
    ∷ removes no_faults [] (codes "shop")
    ∷ []

run_commands-AllGood_example : AllGood (run_commands parse_one paths history one_file)
run_commands-AllGood_example =
    run_commands-AllGood parse_one paths history one_file (tt, (tt, (tt, tt)))
      (λ path. ((tt, tt), (shop-IsUsable, tt)))

elsewhere : text_eq (codes "/home/ann/m.yaml") paths.config_file ≡ false
unfolding text_eq
elsewhere = refl

apply_elsewhere_example :
    apply parse_one paths
      (adds no_faults (codes "/home/ann/m.yaml") app_flags)
      one_file
      (codes "/home/ann/m.yaml")
    ≡ ok with_shop
apply_elsewhere_example =
    apply_elsewhere parse_one paths (adds no_faults (codes "/home/ann/m.yaml") app_flags) one_file
      elsewhere

with_shop-Distinct : Distinct with_shop.databases
with_shop-Distinct = (tt, tt)

added-Distinct_example :
    Distinct with_both.databases
    × (d : ParsedDsn) × (find_database (codes "shop") with_both.databases ≡ (
        if text_eq app_flags.id (codes "shop")
        then some (new_database parse_one app_flags d)
        else find_database (codes "shop") with_shop.databases))
added-Distinct_example =
    added-Distinct parse_one app_flags with_shop (codes "shop") with_shop-Distinct app_added
