-- ===== src/Discovery/Docker.antt =====
-- Databases in containers: internal/discovery/docker.go. What the docker client answers is an argument.
pub mod Found
use marmot_cli.Common.{
  ℕ, suc, Bool, true, false, not, ◌&&◌, List, [], ◌∷◌, Option, none, some, Bytes, codes, text_eq,
  is_empty, strip_prefix, contains, to_lower, ltb, if◌then◌else◌, Result, ok, err,
}
use marmot_cli.S3.Key.{split_first}
use marmot_cli.PidFile.{natural}
use marmot_cli.Config.{mysql, postgres, mongo}
use marmot_cli.Discovery.{DatabaseInfo}

abbrev pub Environment : Type 0
Environment = List (Bytes × Bytes)

-- `env[name]`, empty where it is not there; the last entry of a name counts.
unfoldable pub lookup : Bytes → Environment → Option Bytes
lookup name [] = none
lookup name ((n, v) ∷ env) = elim (lookup name env) [
  | some w ↦ some w
  | none ↦ if text_eq n name then some v else none
]

unfoldable pub value : Bytes → Environment → Bytes
unfolding lookup
value name env = elim (lookup name env) [ none ↦ [] | some v ↦ v ]

-- The entries `name=value` of a container.
unfoldable pub environment_of : List Bytes → Environment
unfolding split_first
environment_of [] = []
environment_of (e ∷ es) = elim (split_first b'=' e) [
  | none ↦ environment_of es
  | some pair ↦ pair ∷ environment_of es
]

-- A port such as `3306/tcp`, with the number of its bindings.
abbrev pub Ports : Type 0
Ports = List (Bytes × ℕ)

port_name : Bytes → Bytes
unfolding split_first
port_name p = elim (split_first b'/' p) [ none ↦ p | some (name, protocol) ↦ name ]

or_number : Option ℕ → ℕ → ℕ
or_number none rest = rest
or_number (some n) rest = n

-- The ports in the order of the iteration; the port that is bound is the container's own number.
unfoldable pub get_port : Ports → ℕ → Bytes → ℕ
unfolding port_name or_number natural
get_port [] default text = default
get_port ((p, bindings) ∷ ports) default text =
    let rest = get_port ports default text in
    if text_eq (port_name p) text && ltb 0 bindings
    then or_number (natural (port_name p)) rest
    else rest

-- The first of the texts that is not empty, or the last one.
unfoldable pub first_of : List Bytes → Bytes
first_of [] = []
first_of (a ∷ []) = a
first_of (a ∷ b ∷ more) = let rest = first_of (b ∷ more) in if is_empty a then rest else a

-- `ContainerInspect`
pub record Inspect : Type 0 where
  pub image : Bytes
  pub env : List Bytes
  pub ports : Ports

pub record Container : Type 0 where
  pub id : Bytes
  pub names : List Bytes
  pub inspect : Option Inspect

found : Bytes → Bytes → Bytes → Bytes → ℕ → Bytes → Bytes → Bytes → DatabaseInfo
found id name type version port database user password = record {
  container_id = id;
  container_name = name;
  type = type;
  version = version;
  host = codes "localhost";
  port = port;
  database = database;
  user = user;
  password = password;
}

unfoldable pub detect_mongo_db : Bytes → Bytes → Environment → Ports → DatabaseInfo
unfolding found first_of value get_port
detect_mongo_db id name env ports =
    found id name mongo (value (codes "MONGO_VERSION") env) (get_port ports 27017 (codes "27017"))
      (first_of (
        value (codes "MONGO_INITDB_DATABASE") env
        ∷ value (codes "MONGODB_DATABASE") env
        ∷ codes "admin"
        ∷ []))
      (first_of (
        value (codes "MONGO_INITDB_ROOT_USERNAME") env
        ∷ value (codes "MONGODB_USERNAME") env
        ∷ value (codes "MONGO_USERNAME") env
        ∷ codes "root"
        ∷ []))
      (first_of (
        value (codes "MONGO_INITDB_ROOT_PASSWORD") env
        ∷ value (codes "MONGODB_PASSWORD") env
        ∷ value (codes "MONGO_PASSWORD") env
        ∷ []))

unfoldable pub detect_my_sql : Bytes → Bytes → Environment → Ports → DatabaseInfo
unfolding found first_of value get_port
detect_my_sql id name env ports =
    found id name mysql (value (codes "MYSQL_VERSION") env) (get_port ports 3306 (codes "3306"))
      (first_of (value (codes "MYSQL_DATABASE") env ∷ codes "mysql" ∷ []))
      (first_of (value (codes "MYSQL_USER") env ∷ codes "root" ∷ []))
      (first_of (value (codes "MYSQL_ROOT_PASSWORD") env ∷ value (codes "MYSQL_PASSWORD") env ∷ []))

unfoldable pub detect_postgre_sql : Bytes → Bytes → Environment → Ports → DatabaseInfo
unfolding found first_of value get_port
detect_postgre_sql id name env ports =
    found id name postgres (value (codes "POSTGRES_VERSION") env)
      (get_port ports 5432 (codes "5432"))
      (first_of (
        value (codes "POSTGRES_DB") env
        ∷ value (codes "POSTGRES_USER") env
        ∷ codes "postgres"
        ∷ []))
      (first_of (value (codes "POSTGRES_USER") env ∷ codes "postgres" ∷ []))
      (value (codes "POSTGRES_PASSWORD") env)

-- `strings.TrimPrefix(names[0], "/")`
container_name : List Bytes → Bytes
unfolding strip_prefix
container_name [] = []
container_name (name ∷ names) = elim (strip_prefix (codes "/") name) [
  | none ↦ name
  | some rest ↦ rest
]

-- By the image's name; where several of the words are in it, the last test counts.
unfoldable pub detect : Bytes → Bytes → Inspect → Option DatabaseInfo
unfolding detect_mongo_db detect_my_sql detect_postgre_sql environment_of contains to_lower
detect id name i =
    let env = environment_of i.env in
    let image = to_lower i.image in
    if contains mongo image
    then some (detect_mongo_db id name env i.ports)
    else if contains postgres image
    then some (detect_postgre_sql id name env i.ports)
    else if contains mysql image
    then some (detect_my_sql id name env i.ports)
    else none

-- A container that cannot be inspected is passed over.
unfoldable pub inspect_container : Container → Option DatabaseInfo
unfolding container_name detect
inspect_container c = elim c.inspect [
  | none ↦ none
  | some i ↦ detect c.id (container_name c.names) i
]

unfoldable pub with_found : Option DatabaseInfo → List DatabaseInfo → List DatabaseInfo
with_found none dbs = dbs
with_found (some db) dbs = db ∷ dbs

unfoldable pub discover : List Container → List DatabaseInfo
unfolding inspect_container with_found
discover [] = []
discover (c ∷ cs) = with_found (inspect_container c) (discover cs)
