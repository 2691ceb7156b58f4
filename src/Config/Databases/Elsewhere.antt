-- ===== src/Config/Databases/Elsewhere.antt =====
-- Which file `db add` and `db remove` write.
use marmot_cli.Common.{◌≡◌, refl, ap, false, arith, Bytes, text_eq, Result, ok, err, ◌>>=◌, ◌>>◌}
use marmot_cli.Config.{Config, Paths}
use marmot_cli.Config.Databases.{
  ConfigFiles, with_paths, load_config, save_config, SaveFaults, Url, AddFlags, DbError,
  load_failed, wrap, added, to_add, removed, save_to_default, db_add, db_remove,
}
use marmot_cli.Config.Databases.Unique.{added_new}
use marmot_cli.Config.Databases.Commands.{Command, adds, removes, apply}

-- A configuration that is to be saved has the default paths.
abbrev IsAt {ℓ} : {E : Type ℓ} → Paths → Result E Config → Type 0
IsAt paths (err e) = Unit
IsAt paths (ok c) = c.paths ≡ paths

with_paths-IsAt :
    (paths : Paths) (r : Result Bytes Config) → IsAt paths (wrap load_failed (with_paths paths r))
with_paths-IsAt paths (err e) = tt
with_paths-IsAt paths (ok c) = refl

load_config-IsAt :
    (paths : Paths) (path : Bytes) (files : ConfigFiles)
    → IsAt paths (wrap load_failed (load_config paths path files))
unfolding load_config
load_config-IsAt paths path files = with_paths-IsAt paths _

save_elsewhere :
    (faults : SaveFaults) (paths : Paths) (path : Bytes) (r : Result DbError Config)
    (files : ConfigFiles)
    → IsAt paths r
    → text_eq path paths.config_file ≡ false
    → (save_to_default faults r files).0 path ≡ files path
unfolding save_to_default save_config
save_elsewhere faults paths path (err e) files at other = refl
save_elsewhere faults paths path (ok c) files at other =
    let default : c.paths.config_file ≡ paths.config_file = ap (λ p. p.config_file) at in
    ground arith

module _ (url_parse : Bytes → Result Bytes Url) (paths : Paths) where
  added-IsAt :
      (f : AddFlags) (c : Config) (r : Result DbError Config)
      → c.paths ≡ paths
      → added url_parse f c ≡ r
      → IsAt paths r
  added-IsAt f c (err e) at h = tt
  added-IsAt f c (ok c') at h = let (d, same, fresh) = added_new url_parse f c h in rw same at

  then_added-IsAt :
      (f : AddFlags) (r : Result DbError Config)
      → IsAt paths r
      → IsAt paths (r >>= added url_parse f)
  then_added-IsAt f (err e) at = tt
  then_added-IsAt f (ok c) at = added-IsAt f c _ at refl

  ready_added-IsAt :
      (f : AddFlags) (g : Result DbError (Unit {0})) (r : Result DbError Config)
      → IsAt paths r
      → IsAt paths (g >> (r >>= added url_parse f))
  ready_added-IsAt f (err e) r at = tt
  ready_added-IsAt f (ok done) r at = then_added-IsAt f r at

  removed-IsAt :
      (id : Bytes) (r : Result DbError Config) → IsAt paths r → IsAt paths (r >>= λ c. removed id c)
  unfolding removed
  removed-IsAt id (err e) at = tt
  removed-IsAt id (ok c) at = ground arith

  -- The `--config` path of a command.
  abbrev path_of : Command → Bytes
  path_of (adds faults path f) = path
  path_of (removes faults path id) = path

  -- `db add` and `db remove` with a `--config` path that is not the default one leave the file at
  -- that path as it is, whether they fail or not.
  pub apply_elsewhere :
      (c : Command) (files : ConfigFiles)
      → text_eq (path_of c) paths.config_file ≡ false
      → apply url_parse paths c files (path_of c) ≡ files (path_of c)
  unfolding db_add db_remove to_add
  apply_elsewhere (adds faults path f) files other =
      save_elsewhere faults paths path _ files
        (ready_added-IsAt f _ _ (load_config-IsAt paths path files)) other
  apply_elsewhere (removes faults path id) files other =
      save_elsewhere faults paths path _ files
        (removed-IsAt id _ (load_config-IsAt paths path files)) other
