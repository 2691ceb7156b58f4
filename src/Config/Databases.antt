-- ===== src/Config/Databases.antt =====
-- `marmot db add` and `marmot db remove` of cmd/marmot/cmd/db.go, with `LoadConfig` and `SaveConfig`
-- of internal/config/config.go. The files that viper reads and writes are a function from paths to what
-- a read gives; what is written is read back. Go's `net/url` is an argument.
pub mod Unique
pub mod Commands
pub mod Elsewhere
use marmot_cli.Common.{
  ℕ, zero, suc, ◌+◌, ◌^◌, Bool, true, false, not, ◌&&◌, ◌||◌, List, [], ◌∷◌, ◌++◌, Option, none,
  some, Bytes, codes, text_eq, is_empty, Result, ok, err, ◌>>=◌, ◌>>◌, fail_if, or_fail, ℤ, pos,
  ltb, strip_prefix, decimal_value, keep_if, any_of, if◌then◌else◌,
}
use marmot_cli.Config.{
  Config, DatabaseConfig, Paths, mysql, postgres, mongo, find_database, get_database_by_id,
}

-- What a read of each path gives.
abbrev pub ConfigFiles : Type 0
ConfigFiles = Bytes → Result Bytes Config

-- `config.Paths = paths`
abbrev pub with_paths : Paths → Result Bytes Config → Result Bytes Config
with_paths paths (err e) = err e
with_paths paths (ok c) = ok (record c { paths = paths })

unfoldable pub load_config : Paths → Bytes → ConfigFiles → Result Bytes Config
load_config paths path files =
    with_paths paths (files (if is_empty path then paths.config_file else path))

-- The errors of `MkdirAll`, `WriteConfigAs` and `Chmod`. `left` is what the file reads as after a write that
-- broke off when it had opened the file, which truncates it.
pub record SaveFaults : Type 0 where
  pub mkdir : Option Bytes
  pub write : Option Bytes
  pub chmod : Option Bytes
  pub left : Option (Result Bytes Config)

-- The files after a write that failed.
abbrev pub broken_off : Option (Result Bytes Config) → Bytes → ConfigFiles → ConfigFiles
broken_off none file files = files
broken_off (some r) file files = λ p. if text_eq p file then r else files p

-- The file is written before its permissions are set.
unfoldable pub save_config :
    SaveFaults → Config → Bytes → ConfigFiles → ConfigFiles × Result Bytes (Unit {0})
save_config f c path files =
    let file = if is_empty path then c.paths.config_file else path in
    let written : ConfigFiles = λ p. if text_eq p file then ok c else files p in
    elim f.mkdir [
      | some e ↦ (files, err e)
      | none ↦ elim f.write [
        | some e ↦ (broken_off f.left file files, err e)
        | none ↦ elim f.chmod [ some e ↦ (written, err e) | none ↦ (written, ok tt) ]
      ]
    ]

-- What the code reads of a parsed `url.URL`.
pub record Url : Type 0 where
  pub user : Option (Bytes × Option Bytes)
  pub hostname : Bytes
  pub port : Bytes
  pub path : Bytes

pub record ParsedDsn : Type 0 where
  pub user : Bytes
  pub password : Bytes
  pub host : Bytes
  pub name : Bytes
  pub port : ℤ

abbrev has_prefix : Bytes → Bytes → Bool
has_prefix prefix s = elim (strip_prefix prefix s) [ none ↦ false | some rest ↦ true ]

-- `strings.Replace(s, old, new, 1)`, where `old` is not empty.
unfoldable pub replace_first : Bytes → Bytes → Bytes → Bytes
replace_first old new [] = []
replace_first old new (x ∷ xs) = elim (strip_prefix old (x ∷ xs)) [
  | some rest ↦ new ++ rest
  | none ↦ x ∷ replace_first old new xs
]

abbrev http : Bytes
http = codes "http://"

unfoldable pub normalize_dsn : Bytes → Bytes
unfolding replace_first
normalize_dsn dsn =
    if has_prefix (codes "mysql://") dsn
    then replace_first (codes "mysql://") http dsn
    else if has_prefix (codes "postgres://") dsn || has_prefix (codes "postgresql://") dsn
    then replace_first (codes "postgres://") http (replace_first (codes "postgresql://") http dsn)
    else if has_prefix (codes "mongodb://") dsn || has_prefix (codes "mongodb+srv://") dsn
    then replace_first (codes "mongodb://") http (replace_first (codes "mongodb+srv://") http dsn)
    else dsn

-- `strconv.Atoi` of a port's digits, whose value is kept on a range error too.
abbrev atoi_port : Bytes → ℤ
atoi_port digits =
    let n = decimal_value digits 0 in pos (if ltb n (2 ^ 63) then n else 9223372036854775807)

unfoldable pub default_port : Bytes → ℕ
default_port type =
    if text_eq type postgres
    then 5432
    else if text_eq type mysql
    then 3306
    else if text_eq type mongo
    then 27017
    else 0

unfoldable pub parsed_of : Bytes → Url → ParsedDsn
unfolding default_port
parsed_of type u = record {
  user = elim u.user [ none ↦ [] | some (name, password) ↦ name ];
  password = elim u.user [
    | none ↦ []
    | some (name, password) ↦ elim password [ none ↦ [] | some p ↦ p ]
  ];
  host = if is_empty u.hostname then codes "localhost" else u.hostname;
  name = elim (strip_prefix (codes "/") u.path) [ none ↦ u.path | some rest ↦ rest ];
  port = if not (is_empty u.port) then atoi_port u.port else pos (default_port type);
}

pub data DbError : Type 0 where
  type_required bad_type id_required target_required name_required : DbError
  load_failed save_failed dsn_failed duplicate_id id_not_found : Bytes → DbError

abbrev pub wrap {ℓ} : {A : Type ℓ} → (Bytes → DbError) → Result Bytes A → Result DbError A
wrap f (ok a) = ok a
wrap f (err e) = err (f e)

pub record AddFlags : Type 0 where
  pub type : Bytes
  pub id : Bytes
  pub dsn : Bytes
  pub container_id : Bytes
  pub name : Bytes
  pub user : Bytes
  pub password : Bytes
  pub host : Bytes
  pub port : ℤ
  pub schedule : Bytes

module _ (url_parse : Bytes → Result Bytes Url) where
  -- The connection fields: those of the DSN, or those of the flags.
  unfoldable pub connection : AddFlags → Result DbError ParsedDsn
  connection f =
      if not (is_empty f.dsn)
      then elim (url_parse (normalize_dsn f.dsn)) [
        | err e ↦ err (dsn_failed e)
        | ok u ↦ ok (parsed_of f.type u)
      ]
      else if is_empty f.name
      then err name_required
      else ok (record {
        user = f.user;
        password = f.password;
        host = f.host;
        name = f.name;
        port = f.port;
      })

  abbrev pub new_database : AddFlags → ParsedDsn → DatabaseConfig
  new_database f d = record {
    id = f.id;
    type = f.type;
    container_id = f.container_id;
    dsn = f.dsn;
    name = d.name;
    user = d.user;
    password = d.password;
    host = d.host;
    port = d.port;
    schedule = f.schedule;
    enabled = true;
  }

  unfoldable pub added : AddFlags → Config → Result DbError Config
  unfolding connection
  added f c = do
    fail_if (elim (get_database_by_id f.id c) [ none ↦ false | some db ↦ true ]) (duplicate_id f.id)
    d ← connection f
    ok (record c { databases = c.databases ++ (new_database f d ∷ []) })

  flags_ready : AddFlags → Result DbError (Unit {0})
  flags_ready f =
      if is_empty f.type
      then err type_required
      else if not (text_eq f.type mysql)
          && (not (text_eq f.type postgres) && not (text_eq f.type mongo))
      then err bad_type
      else if is_empty f.id
      then err id_required
      else if is_empty f.dsn && is_empty f.container_id
      then err target_required
      else ok tt

  -- The configuration that is to be saved.
  unfoldable pub to_add : Paths → Bytes → AddFlags → ConfigFiles → Result DbError Config
  unfolding added flags_ready
  to_add paths path f files = do
    flags_ready f
    c ← wrap load_failed (load_config paths path files)
    added f c

unfoldable pub removed : Bytes → Config → Result DbError Config
removed id c =
    if any_of (λ db. text_eq db.id id) c.databases
    then ok (record c { databases = keep_if (λ db. not (text_eq db.id id)) c.databases })
    else err (id_not_found id)

-- Both commands load from the path of the flag and save to the default path.
unfoldable pub save_to_default :
    SaveFaults → Result DbError Config → ConfigFiles → ConfigFiles × Result DbError (Unit {0})
save_to_default faults (err e) files = (files, err e)
save_to_default faults (ok c) files =
    let (files', r) = save_config faults c c.paths.config_file files in (files', wrap save_failed r)

unfoldable pub db_add :
    (Bytes → Result Bytes Url)
    → SaveFaults
    → Paths
    → Bytes
    → AddFlags
    → ConfigFiles
    → ConfigFiles × Result DbError (Unit {0})
unfolding save_to_default
db_add url_parse faults paths path f files =
    save_to_default faults (to_add url_parse paths path f files) files

unfoldable pub db_remove :
    SaveFaults → Paths → Bytes → Bytes → ConfigFiles → ConfigFiles × Result DbError (Unit {0})
unfolding save_to_default
db_remove faults paths path id files =
    save_to_default faults (wrap load_failed (load_config paths path files) >>= λ c. removed id c)
      files
