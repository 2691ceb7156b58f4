-- ===== src/Discovery/Local.antt =====
-- Databases of the host: internal/discovery/local.go. What the service manager lists, and which ports take a
-- connection, are arguments.
use marmot_cli.Common.{
  ℕ, Bool, true, false, ◌||◌, List, [], ◌∷◌, ◌++◌, Option, none, some, Bytes, codes, contains,
  to_lower,
}
use marmot_cli.Config.{mysql, postgres, mongo}
use marmot_cli.Discovery.{DatabaseInfo}

-- `servicePresence` and `portPresence`
pub record Presence : Type 0 where
  pub has_postgres : Bool
  pub has_my_sql : Bool
  pub has_mongo : Bool

abbrev pub nothing : Presence
nothing = record { has_postgres = false; has_my_sql = false; has_mongo = false }

-- Where the pattern of `hasAnyService` finds a name, the text holds it too.
unfoldable pub has_any_service : Bytes → List Bytes → Bool
unfolding contains
has_any_service text [] = false
has_any_service text (name ∷ names) = contains name text || has_any_service text names

-- `brew services list` prints the text, or fails.
unfoldable pub detect_brew_services : Option Bytes → Presence
unfolding has_any_service to_lower
detect_brew_services none = nothing
detect_brew_services (some out) =
    let text = to_lower out in
    record {
      has_postgres =
          has_any_service text (codes "postgresql" ∷ codes "postgres" ∷ codes "postgresql@" ∷ []);
      has_my_sql = has_any_service text (codes "mysql" ∷ codes "mysql@" ∷ codes "mariadb" ∷ []);
      has_mongo = has_any_service text (codes "mongodb-community" ∷ codes "mongodb" ∷ []);
    }

-- `systemctl` prints the text, or fails.
unfoldable pub detect_systemd_services : Option Bytes → Presence
unfolding has_any_service to_lower
detect_systemd_services none = nothing
detect_systemd_services (some out) =
    let text = to_lower out in
    record {
      has_postgres = has_any_service text (codes "postgresql" ∷ codes "postgres" ∷ []);
      has_my_sql = has_any_service text (codes "mysql" ∷ codes "mariadb" ∷ []);
      has_mongo = has_any_service text (codes "mongod" ∷ codes "mongodb" ∷ []);
    }

pub data System : Type 0 where
  darwin linux other : System

unfoldable pub detect_services : System → Option Bytes → Presence
unfolding detect_brew_services detect_systemd_services
detect_services darwin out = detect_brew_services out
detect_services linux out = detect_systemd_services out
detect_services other out = nothing

-- `canConnect` at the three ports.
unfoldable pub detect_open_ports : (ℕ → Bool) → Presence
detect_open_ports connects = record {
  has_postgres = connects 5432;
  has_my_sql = connects 3306;
  has_mongo = connects 27017;
}

on_host : Bytes → ℕ → Bytes → Bytes → DatabaseInfo
on_host type port database user = record {
  container_id = [];
  container_name = [];
  type = type;
  version = [];
  host = codes "localhost";
  port = port;
  database = database;
  user = user;
  password = [];
}

present : Bool → DatabaseInfo → List DatabaseInfo
present false db = []
present true db = db ∷ []

unfoldable pub discover : System → Option Bytes → (ℕ → Bool) → List DatabaseInfo
unfolding detect_services detect_open_ports on_host present
discover system out connects =
    let services = detect_services system out in
    let ports = detect_open_ports connects in
    present (services.has_postgres || ports.has_postgres)
      (on_host postgres 5432 (codes "postgres") (codes "postgres"))
    ++ (present (services.has_my_sql || ports.has_my_sql)
          (on_host mysql 3306 (codes "mysql") (codes "root"))
        ++ present (services.has_mongo || ports.has_mongo)
            (on_host mongo 27017 (codes "admin") (codes "root")))
