-- ===== src/Discovery.antt =====
-- Discovery of databases: internal/discovery/types.go, and of cmd/marmot/cmd/init.go the functions that merge
-- what was found and name it.
pub mod Docker
pub mod Local
pub mod Merged
mod Examples
use marmot_cli.Common.{
  ℕ, Bool, true, false, not, List, [], ◌∷◌, ◌++◌, Bytes, codes, text_eq, is_empty, decimal, ltb,
  length, take, any_of, if◌then◌else◌, ◌==◌,
}
use marmot_cli.Config.{mysql, postgres, mongo}
use marmot_cli.PidFile.{trim_space}

-- The version and the environment are not read again.
pub record DatabaseInfo : Type 0 where
  pub container_id : Bytes
  pub container_name : Bytes
  pub type : Bytes
  pub version : Bytes
  pub host : Bytes
  pub port : ℕ
  pub database : Bytes
  pub user : Bytes
  pub password : Bytes

abbrev pub default_string : Bytes → Bytes → Bytes
default_string value fallback = if is_empty (trim_space value) then fallback else value

abbrev pub default_int : ℕ → ℕ → ℕ
default_int value fallback = if value == 0 then fallback else value

abbrev pub default_port_for_type : Bytes → ℕ
default_port_for_type type =
    if text_eq type postgres
    then 5432
    else if text_eq type mysql
    then 3306
    else if text_eq type mongo
    then 27017
    else 0

-- `"%s|%s|%d|%s"`
unfoldable pub discovery_key : DatabaseInfo → Bytes
discovery_key db =
    db.type ++ (b'|' ∷ (db.host ++ (b'|' ∷ (decimal db.port ++ (b'|' ∷ db.database)))))

-- Whether the key is among those that are seen.
abbrev pub is_seen : List Bytes → DatabaseInfo → Bool
is_seen seen db = any_of (λ key. text_eq key (discovery_key db)) seen

-- The loop over the databases that come in.
unfoldable pub add_unique : List Bytes → List DatabaseInfo → List DatabaseInfo
unfolding discovery_key any_of
add_unique seen [] = []
add_unique seen (db ∷ incoming) =
    let skip = add_unique seen incoming in
    let add = add_unique (discovery_key db ∷ seen) incoming in
    if is_seen seen db then skip else db ∷ add

unfoldable pub keys_of : List DatabaseInfo → List Bytes
keys_of [] = []
keys_of (db ∷ dbs) = discovery_key db ∷ keys_of dbs

unfoldable pub merge_unique_databases : List DatabaseInfo → List DatabaseInfo → List DatabaseInfo
unfolding add_unique keys_of
merge_unique_databases existing incoming = existing ++ add_unique (keys_of existing) incoming

-- The container's id, cut at 12 bytes, and the database; or the type, the database and the port.
unfoldable pub build_discovered_id : DatabaseInfo → Bytes
build_discovered_id db =
    let short =
      if ltb 12 (length db.container_id) then take 12 db.container_id else db.container_id in
    if not (is_empty db.container_id)
    then short ++ (b'-' ∷ db.database)
    else codes "local-"
      ++ (db.type
          ++ (b'-'
              ∷ (default_string db.database (codes "db")
                  ++ (b'-' ∷ decimal (default_int db.port (default_port_for_type db.type))))))
