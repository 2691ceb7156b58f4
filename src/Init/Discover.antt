-- ===== src/Init/Discover.antt =====
-- `marmot db discover` of cmd/marmot/cmd/db_discover.go.
use marmot_cli.Common.{
  List, [], ◌∷◌, ◌++◌, Option, none, some, Bytes, length, ◌==◌, Result, ok, err, if◌then◌else◌,
}
use marmot_cli.Config.{Config, DatabaseConfig, Paths, find_database}
use marmot_cli.Config.Databases.{ConfigFiles, SaveFaults, save_config, load_config}
use marmot_cli.Agent.Upload.{map_err}
use marmot_cli.Discovery.{DatabaseInfo}
use marmot_cli.Init.Prompts.{Stdin, prompt}
use marmot_cli.Init.{InitError, save_failed, load_failed, build_db_config_from_discovery}

-- An id that is there already is asked for again, once; the default is the same id.
unfoldable pub fresh_id : List DatabaseConfig → DatabaseConfig → Stdin → DatabaseConfig × Stdin
fresh_id dbs c stdin = elim (find_database c.id dbs) [
  | none ↦ (c, stdin)
  | some other ↦ let (id, rest) = prompt c.id stdin in (record c { id = id }, rest)
]

discovered_one : List DatabaseConfig → Option DatabaseConfig × Stdin → List DatabaseConfig × Stdin
unfolding fresh_id
discovered_one dbs (none, stdin) = (dbs, stdin)
discovered_one dbs (some c, stdin) = let (c', rest) = fresh_id dbs c stdin in (dbs ++ c' ∷ [], rest)

-- The databases of the configuration, and those that the user takes behind them.
unfoldable pub discovered :
    List DatabaseInfo → List DatabaseConfig → Stdin → List DatabaseConfig × Stdin
unfolding discovered_one build_db_config_from_discovery
discovered [] dbs stdin = (dbs, stdin)
discovered (db ∷ found) dbs stdin =
    let (dbs', rest) = discovered_one dbs (build_db_config_from_discovery db stdin) in
    discovered found dbs' rest

-- It is saved where a database was added.
db_discovered :
    SaveFaults
    → List DatabaseInfo
    → Stdin
    → ConfigFiles
    → Result Bytes Config
    → ConfigFiles × Result InitError (Unit {0})
unfolding discovered
db_discovered faults found stdin files (err e) = (files, err (load_failed e))
db_discovered faults found stdin files (ok cfg) =
    let dbs = (discovered found cfg.databases stdin).0 in
    let (files', saved) =
      save_config faults (record cfg { databases = dbs }) cfg.paths.config_file files in
    if length dbs == length cfg.databases
    then (files, ok tt)
    else (files', map_err save_failed saved)

unfoldable pub db_discover :
    SaveFaults
    → Paths
    → Bytes
    → List DatabaseInfo
    → Stdin
    → ConfigFiles
    → ConfigFiles × Result InitError (Unit {0})
unfolding db_discovered
db_discover faults paths path found stdin files =
    db_discovered faults found stdin files (load_config paths path files)
