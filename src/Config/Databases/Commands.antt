-- ===== src/Config/Databases/Commands.antt =====
-- Sequences of `db add` and `db remove` on the configuration files.
use marmot_cli.Common.{
  ◌≡◌, refl, inl, inr, Bool-cases, Option, none, some, is_empty, if◌then◌else◌, not, List, [], ◌∷◌,
  arith, Bytes, text_eq, text_eq_iff, Result, ok, err, ◌>>=◌, ◌>>◌, All, All-append, All-keep_if,
}
use marmot_cli.Config.{Config, Paths, mysql, postgres, mongo}
use marmot_cli.Config.Databases.{
  ConfigFiles, with_paths, load_config, SaveFaults, broken_off, save_config, Url, ParsedDsn,
  AddFlags, DbError, load_failed, wrap, new_database, added, flags_ready, to_add, removed,
  save_to_default, db_add, db_remove,
}
use marmot_cli.Config.Databases.Unique.{Distinct, added_new, added-Distinct, Distinct-keep_if}
use marmot_cli.Config.Validity.{IsUsable}

-- A configuration whose databases have distinct ids and can be backed up; an unreadable file is fine.
abbrev pub IsGood {ℓ} : {E : Type ℓ} → Result E Config → Type 0
IsGood (err e) = Unit
IsGood (ok c) = Distinct c.databases × All IsUsable c.databases

abbrev pub AllGood : ConfigFiles → Type 0
AllGood files = (path : Bytes) → IsGood (files path)

with_paths-IsGood :
    (paths : Paths) (r : Result Bytes Config) → IsGood r → IsGood (with_paths paths r)
with_paths-IsGood paths (err e) h = tt
with_paths-IsGood paths (ok c) h = h

load_config-IsGood :
    (paths : Paths) (path : Bytes) (files : ConfigFiles)
    → AllGood files
    → IsGood (load_config paths path files)
unfolding load_config
load_config-IsGood paths path files good = with_paths-IsGood paths _ (good _)

wrap-IsGood : (f : Bytes → DbError) (r : Result Bytes Config) → IsGood r → IsGood (wrap f r)
wrap-IsGood f (err e) h = tt
wrap-IsGood f (ok c) h = h

module _ (url_parse : Bytes → Result Bytes Url) where
  flags_ready-IsUsable :
      (f : AddFlags) (d : ParsedDsn)
      → flags_ready url_parse f ≡ ok tt
      → IsUsable (new_database url_parse f d)
  unfolding flags_ready
  flags_ready-IsUsable f d h =
      ground
        (arith, text_eq_iff f.type mysql, text_eq_iff f.type postgres, text_eq_iff f.type mongo)

  added-IsGood :
      (f : AddFlags) (c : Config) (r : Result DbError Config)
      → flags_ready url_parse f ≡ ok tt
      → Distinct c.databases × All IsUsable c.databases
      → added url_parse f c ≡ r
      → IsGood r
  added-IsGood f c (err e) ready good h = tt
  added-IsGood f c (ok c') ready good h =
      let (d, same, fresh) = added_new url_parse f c h in
      (
        (added-Distinct url_parse f c [] good.0 h).0,
        rw same (
            All-append IsUsable c.databases (new_database url_parse f d ∷ []) good.1
              (flags_ready-IsUsable f d ready, tt)),
      )

  then_added-IsGood :
      (f : AddFlags) (r : Result DbError Config)
      → flags_ready url_parse f ≡ ok tt
      → IsGood r
      → IsGood (r >>= added url_parse f)
  then_added-IsGood f (err e) ready good = tt
  then_added-IsGood f (ok c) ready good = added-IsGood f c _ ready good refl

  ready_added-IsGood :
      (f : AddFlags) (g : Result DbError (Unit {0})) (r : Result DbError Config)
      → flags_ready url_parse f ≡ g
      → IsGood r
      → IsGood (g >> (r >>= added url_parse f))
  ready_added-IsGood f (err e) r ready good = tt
  ready_added-IsGood f (ok done) r ready good = then_added-IsGood f r ready good

  to_add-IsGood :
      (paths : Paths) (path : Bytes) (f : AddFlags) (files : ConfigFiles)
      → AllGood files
      → IsGood (to_add url_parse paths path f files)
  unfolding to_add
  to_add-IsGood paths path f files good =
      ready_added-IsGood f _ _ refl
        (wrap-IsGood load_failed _ (load_config-IsGood paths path files good))

removed-IsGood :
    (id : Bytes) (r : Result DbError Config) → IsGood r → IsGood (r >>= λ c. removed id c)
unfolding removed
removed-IsGood id (err e) good = tt
removed-IsGood id (ok c) good =
    let distinct = Distinct-keep_if (λ db. not (text_eq db.id id)) c.databases good.0 in
    let usable = All-keep_if IsUsable (λ db. not (text_eq db.id id)) c.databases good.1 in
    ground arith

-- What a write that broke off has left, if it has changed the file.
abbrev IsLeft : Option (Result Bytes Config) → Type 0
IsLeft none = Unit
IsLeft (some r) = IsGood r

broken_off-AllGood :
    (left : Option (Result Bytes Config)) (file : Bytes) (files : ConfigFiles)
    → AllGood files
    → IsLeft left
    → AllGood (broken_off left file files)
broken_off-AllGood none file files good left p = good p
broken_off-AllGood (some r) file files good left p = elim (Bool-cases (text_eq p file)) [
  | inl e ↦ rw e left
  | inr e ↦ rw e (good p)
]

save_config-AllGood :
    (faults : SaveFaults) (c : Config) (path : Bytes) (files : ConfigFiles)
    → AllGood files
    → Distinct c.databases × All IsUsable c.databases
    → IsLeft faults.left
    → AllGood (save_config faults c path files).0
unfolding save_config
save_config-AllGood faults c path files good fine left p =
    let file = if is_empty path then c.paths.config_file else path in
    ground (arith, good p, broken_off-AllGood faults.left file files good left p)

save_to_default-AllGood :
    (faults : SaveFaults) (r : Result DbError Config) (files : ConfigFiles)
    → AllGood files
    → IsGood r
    → IsLeft faults.left
    → AllGood (save_to_default faults r files).0
unfolding save_to_default
save_to_default-AllGood faults (err e) files good fine left = good
save_to_default-AllGood faults (ok c) files good fine left =
    save_config-AllGood faults c c.paths.config_file files good fine left

pub data Command : Type 0 where
  adds : SaveFaults → Bytes → AddFlags → Command
  removes : SaveFaults → Bytes → Bytes → Command

-- Where the write of the command breaks off, what it leaves is unreadable or good.
abbrev pub LeavesGood : Command → Type 0
LeavesGood (adds faults path f) = IsLeft faults.left
LeavesGood (removes faults path id) = IsLeft faults.left

module _ (url_parse : Bytes → Result Bytes Url) (paths : Paths) where
  abbrev pub apply : Command → ConfigFiles → ConfigFiles
  apply (adds faults path f) files = (db_add url_parse faults paths path f files).0
  apply (removes faults path id) files = (db_remove faults paths path id files).0

  pub run_commands : List Command → ConfigFiles → ConfigFiles
  run_commands [] files = files
  run_commands (c ∷ cs) files = run_commands cs (apply c files)

  apply-AllGood :
      (c : Command) (files : ConfigFiles) → LeavesGood c → AllGood files → AllGood (apply c files)
  unfolding db_add db_remove
  apply-AllGood (adds faults path f) files left good =
      save_to_default-AllGood faults _ files good (to_add-IsGood url_parse paths path f files good)
        left
  apply-AllGood (removes faults path id) files left good =
      save_to_default-AllGood faults _ files good
        (removed-IsGood id _ (wrap-IsGood load_failed _ (load_config-IsGood paths path files good)))
        left

  -- Whatever sequence of `db add` and `db remove` runs, with whichever of them failing at whichever step, if
  -- each configuration file was unreadable, or held databases with distinct ids, a known type and a container or
  -- a DSN, before, and if that is so of what a write that breaks off leaves in the file, then it is so of each
  -- file afterwards.
  pub run_commands-AllGood :
      (cs : List Command) (files : ConfigFiles)
      → All LeavesGood cs
      → AllGood files
      → AllGood (run_commands cs files)
  unfolding run_commands
  run_commands-AllGood [] files left good = good
  run_commands-AllGood (c ∷ cs) files left good =
      run_commands-AllGood cs (apply c files) left.1 (apply-AllGood c files left.0 good)
