-- ===== src/Agent/Programs.antt =====
-- The programs that dump and restore a database: internal/backup/mysql.go, postgres.go and mongo.go,
-- and `restoreToDatabase` of internal/agent/agent.go. `context` and its deadlines are left out.
pub mod Private
use marmot_cli.Common.{
  ℕ, zero, suc, Bool, true, false, not, ◌&&◌, List, [], ◌∷◌, ◌++◌, Option, none, some, Bytes, codes,
  text_eq, is_empty, Result, ok, err, ℤ, pos, negsuc, ltb_ℤ, decimal, if◌then◌else◌,
}
use marmot_cli.Config.{DatabaseConfig, mysql, postgres, mongo}

-- A process that is started: `env` is the variable that is added to the environment.
pub record Command : Type 0 where
  pub program : Bytes
  pub args : List Bytes
  pub env : Option (Bytes × Bytes)

-- Running a command with a standard input: the databases afterwards, and the standard output or the
-- error with what was printed.
pub record DatabasePrograms : Type 1 where
  pub State : Type 0
  pub run : Command → Bytes → State → State × Result Bytes Bytes

-- `strconv.Itoa`
abbrev itoa : ℤ → Bytes
itoa (pos n) = decimal n
itoa (negsuc n) = codes "-" ++ decimal (suc n)

-- A flag with its value, where the value is there.
abbrev host_flag : Bytes → DatabaseConfig → List Bytes
host_flag flag db = if not (is_empty db.host) then flag ∷ db.host ∷ [] else []

-- The dumpers ask for a positive port, the restore for one that is not 0.
abbrev port_flag : Bool → Bytes → DatabaseConfig → List Bytes
port_flag wanted flag db = if wanted then flag ∷ itoa db.port ∷ [] else []

abbrev is_positive : ℤ → Bool
is_positive p = ltb_ℤ (pos 0) p

abbrev is_nonzero : ℤ → Bool
is_nonzero (pos zero) = false
is_nonzero (pos (suc n)) = true
is_nonzero (negsuc n) = true

abbrev in_container : DatabaseConfig → Bool
in_container db = not (is_empty db.container_id)

abbrev docker : Bytes
docker = codes "docker"

abbrev mysql_password : DatabaseConfig → Option (Bytes × Bytes)
mysql_password db = some (codes "MYSQL_PWD", db.password)

abbrev postgres_password : DatabaseConfig → Option (Bytes × Bytes)
postgres_password db = some (codes "PGPASSWORD", db.password)

mysql_dump : DatabaseConfig → Command
mysql_dump db =
    if in_container db
    then record {
      program = docker;
      args =
          codes "exec"
          ∷ codes "-i"
          ∷ db.container_id
          ∷ codes "-e"
          ∷ codes "MYSQL_PWD"
          ∷ codes "mysqldump"
          ∷ codes "-u"
          ∷ db.user
          ∷ codes "--single-transaction"
          ∷ codes "--routines"
          ∷ codes "--triggers"
          ∷ db.name
          ∷ [];
      env = mysql_password db;
    }
    else record {
      program = codes "mysqldump";
      args =
          (codes "--single-transaction"
            ∷ codes "--routines"
            ∷ codes "--triggers"
            ∷ codes "-u"
            ∷ db.user
            ∷ [])
          ++ (host_flag (codes "-h") db
              ++ (port_flag (is_positive db.port) (codes "-P") db ++ (db.name ∷ [])));
      env = mysql_password db;
    }

postgres_dump : DatabaseConfig → Command
postgres_dump db =
    let target = host_flag (codes "-h") db ++ port_flag (is_positive db.port) (codes "-p") db in
    if in_container db
    then record {
      program = docker;
      args =
          (codes "exec"
            ∷ codes "-i"
            ∷ codes "-e"
            ∷ codes "PGPASSWORD"
            ∷ db.container_id
            ∷ codes "pg_dump"
            ∷ codes "-U"
            ∷ db.user
            ∷ [])
          ++ (target ++ (codes "-F" ∷ codes "c" ∷ codes "-b" ∷ db.name ∷ []));
      env = postgres_password db;
    }
    else record {
      program = codes "pg_dump";
      args =
          (codes "-U" ∷ db.user ∷ codes "-F" ∷ codes "c" ∷ codes "-b" ∷ [])
          ++ (target ++ (db.name ∷ []));
      env = postgres_password db;
    }

-- Root signs in against the database `admin`.
auth_db : DatabaseConfig → Bytes
auth_db db = if text_eq db.user (codes "root") then codes "admin" else db.name

abbrev mongo_sign_in : DatabaseConfig → List Bytes
mongo_sign_in db =
    codes "--username"
    ∷ db.user
    ∷ codes "--password"
    ∷ db.password
    ∷ codes "--authenticationDatabase"
    ∷ auth_db db
    ∷ codes "--archive"
    ∷ []

mongo_dump : DatabaseConfig → Command
unfolding auth_db
mongo_dump db =
    let one =
      if not (is_empty db.name) && not (text_eq db.name (codes "admin"))
      then codes "--db" ∷ db.name ∷ []
      else [] in
    let flags =
      mongo_sign_in db
      ++ (one
          ++ (host_flag (codes "--host") db
              ++ port_flag (is_positive db.port) (codes "--port") db)) in
    if in_container db
    then record {
      program = docker;
      args = (codes "exec" ∷ codes "-i" ∷ db.container_id ∷ codes "mongodump" ∷ []) ++ flags;
      env = none;
    }
    else record { program = codes "mongodump"; args = flags; env = none }

-- The dumper of the type, `none` for a type that is not supported.
unfoldable pub dump_command : DatabaseConfig → Option Command
unfolding mysql_dump postgres_dump mongo_dump
dump_command db =
    if text_eq db.type mysql
    then some (mysql_dump db)
    else if text_eq db.type postgres
    then some (postgres_dump db)
    else if text_eq db.type mongo
    then some (mongo_dump db)
    else none

mysql_restore : DatabaseConfig → Command
mysql_restore db =
    if in_container db
    then record {
      program = docker;
      args =
          codes "exec"
          ∷ codes "-i"
          ∷ codes "-e"
          ∷ codes "MYSQL_PWD"
          ∷ db.container_id
          ∷ codes "mysql"
          ∷ codes "-u"
          ∷ db.user
          ∷ db.name
          ∷ [];
      env = mysql_password db;
    }
    else record {
      program = codes "mysql";
      args =
          (codes "-u" ∷ db.user ∷ [])
          ++ (host_flag (codes "-h") db
              ++ (port_flag (is_nonzero db.port) (codes "-P") db ++ (db.name ∷ [])));
      env = mysql_password db;
    }

postgres_restore : DatabaseConfig → Command
postgres_restore db =
    let flags =
      (codes "-U" ∷ db.user ∷ [])
      ++ (host_flag (codes "-h") db
          ++ (port_flag (is_nonzero db.port) (codes "-p") db
              ++ (codes "-d" ∷ db.name ∷ codes "-v" ∷ []))) in
    if in_container db
    then record {
      program = docker;
      args =
          (codes "exec"
            ∷ codes "-i"
            ∷ codes "-e"
            ∷ codes "PGPASSWORD"
            ∷ db.container_id
            ∷ codes "pg_restore"
            ∷ [])
          ++ flags;
      env = postgres_password db;
    }
    else record { program = codes "pg_restore"; args = flags; env = postgres_password db }

mongo_restore : DatabaseConfig → Command
unfolding auth_db
mongo_restore db =
    let flags =
      mongo_sign_in db
      ++ ((codes "--drop" ∷ [])
          ++ (host_flag (codes "--host") db
              ++ port_flag (is_nonzero db.port) (codes "--port") db)) in
    if in_container db
    then record {
      program = docker;
      args = (codes "exec" ∷ codes "-i" ∷ db.container_id ∷ codes "mongorestore" ∷ []) ++ flags;
      env = none;
    }
    else record { program = codes "mongorestore"; args = flags; env = none }

unfoldable pub restore_command : DatabaseConfig → Option Command
unfolding mysql_restore postgres_restore mongo_restore
restore_command db =
    if text_eq db.type mysql
    then some (mysql_restore db)
    else if text_eq db.type postgres
    then some (postgres_restore db)
    else if text_eq db.type mongo
    then some (mongo_restore db)
    else none
