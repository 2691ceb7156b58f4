-- ===== src/Discovery/Examples.antt =====
-- A container that was found, and the theorems on what is found at it.
use marmot_cli.Common.{◌≡◌, List, [], ◌∷◌, ◌++◌, codes}
use marmot_cli.Config.{mysql}
use marmot_cli.Discovery.{DatabaseInfo, keys_of, merge_unique_databases}
use marmot_cli.Discovery.Merged.{AreNew, AreSeen, merge_unique_databases_lem}

abbrev my_sql : DatabaseInfo
my_sql = record {
  container_id = codes "c1";
  container_name = codes "shop";
  type = mysql;
  version = [];
  host = codes "localhost";
  port = 3306;
  database = codes "mysql";
  user = codes "root";
  password = [];
}

-- The same database, found as one of the host.
abbrev on_host : DatabaseInfo
on_host = record my_sql { container_id = []; container_name = [] }

merge_unique_databases_lem_example :
    (added : List DatabaseInfo) × (merge_unique_databases (my_sql ∷ []) (on_host ∷ on_host ∷ [])
      ≡ (my_sql ∷ []) ++ added)
    × AreNew (keys_of (my_sql ∷ [])) added
    × AreSeen
        (keys_of (merge_unique_databases (my_sql ∷ []) (on_host ∷ on_host ∷ [])))
        (on_host ∷ on_host ∷ [])
merge_unique_databases_lem_example =
    merge_unique_databases_lem (my_sql ∷ []) (on_host ∷ on_host ∷ [])
