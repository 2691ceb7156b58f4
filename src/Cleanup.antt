-- ===== src/Cleanup.antt =====
-- `marmot cleanup` of cmd/marmot/cmd/cleanup.go. The days before now are counted in local
-- time, of which the offsets are an argument.
pub mod Expired
mod Examples
use marmot_cli.Common.{
  ℕ, zero, suc, ◌+◌, ◌-◌, ◌*◌, Bool, true, false, not, ◌&&◌, ◌||◌, List, [], ◌∷◌, Option, none,
  some, Bytes, codes, text_eq, Result, ok, err, ltb, length, keep_if, ℤ, pos, negsuc, if◌then◌else◌,
}
use marmot_cli.Files.{File, Disk, remove_file, read_dir}
use marmot_cli.Storage.{Time, second}
use marmot_cli.Config.{Config, is_local, get_storage_path}

-- `strings.HasSuffix`
unfoldable pub has_suffix : Bytes → Bytes → Bool
has_suffix suffix [] = text_eq [] suffix
has_suffix suffix (x ∷ xs) = text_eq (x ∷ xs) suffix || has_suffix suffix xs

-- The files that are backups; `unknown` are the entries whose `Info` fails.
abbrev pub is_backup : (File → Bool) → File → Bool
is_backup unknown f = not f.is_dir && (has_suffix (codes ".enc") f.name && not (unknown f))

unfoldable pub list_backup_files : (File → Bool) → Bytes → Disk → List File
unfolding keep_if read_dir
list_backup_files unknown dir disk = keep_if (is_backup unknown) (read_dir dir disk)

pub data CleanupError : Type 0 where
  load_failed list_failed : Bytes → CleanupError
  cloud_storage : CleanupError
  no_retention : ℤ → CleanupError

abbrev day : ℕ
day = 24 * 60 * 60 * second

-- What local time is ahead of UTC now, and what `time.Date` takes it to be at the cutoff: they differ where
-- the clock was changed between them. Both are counted from 24 hours behind UTC.
pub record Zone : Type 0 where
  pub ahead_now : ℕ
  pub ahead_then : ℕ

-- `time.Now().AddDate(0, 0, -days)`: the same local time so many days before. A cutoff before the year 1 is at
-- the year 1 here: no file is older.
abbrev pub cutoff : Zone → ℕ → Time → Time
cutoff zone days now = now + zone.ahead_now - (days * day + zone.ahead_then)

-- The removals, in order: the disk, the number that were deleted and the number that failed. `locked` are
-- the files that cannot be removed.
unfoldable pub delete_files : (Bytes → Bool) → Bytes → List File → Disk → Disk × (ℕ × ℕ)
delete_files locked dir [] disk = (disk, (0, 0))
delete_files locked dir (f ∷ fs) disk =
    let here = if locked f.name then disk else remove_file dir f.name disk in
    let (disk', (deleted, failed)) = delete_files locked dir fs here in
    (disk', if locked f.name then (deleted, suc failed) else (suc deleted, failed))

-- What the user answers, where the prompt is not skipped.
abbrev pub confirmed : Bool → Bytes → Bool
confirmed force answer = force || (text_eq answer (codes "y") || text_eq answer (codes "yes"))

-- With a retention of so many days. `answer` is the response in lower case.
unfoldable pub clean :
    Zone
    → (File → Bool)
    → (Bytes → Bool)
    → Bool
    → Bool
    → Bytes
    → Time
    → Bytes
    → ℕ
    → Disk
    → Disk × (ℕ × ℕ)
unfolding delete_files list_backup_files
clean zone unknown locked dry_run force answer now dir days disk =
    let expired =
      keep_if (λ f. ltb f.mod_time (cutoff zone days now)) (list_backup_files unknown dir disk) in
    if dry_run
    then (disk, (0, 0))
    else if confirmed force answer
    then delete_files locked dir expired disk
    else (disk, (0, 0))

clean_kept :
    Zone
    → Option Bytes
    → (File → Bool)
    → (Bytes → Bool)
    → Bool
    → Bool
    → Bytes
    → Time
    → Bytes
    → ℤ
    → Disk
    → Disk × Result CleanupError (ℕ × ℕ)
unfolding clean
clean_kept zone fault unknown locked dry_run force answer now dir (negsuc n) disk =
    (disk, err (no_retention (negsuc n)))
clean_kept zone fault unknown locked dry_run force answer now dir (pos zero) disk =
    (disk, err (no_retention (pos zero)))
clean_kept zone fault unknown locked dry_run force answer now dir (pos (suc n)) disk = elim fault [
  | some e ↦ (disk, err (list_failed e))
  | none ↦
      let (disk', counts) = clean zone unknown locked dry_run force answer now dir (suc n) disk in
      (disk', ok counts)
]

-- `fault` is the error of `os.ReadDir`.
unfoldable pub run_cleanup :
    Zone
    → Result Bytes Config
    → Option Bytes
    → (File → Bool)
    → (Bytes → Bool)
    → Bool
    → Bool
    → Bytes
    → Time
    → Disk
    → Disk × Result CleanupError (ℕ × ℕ)
unfolding clean_kept
run_cleanup zone (err e) fault unknown locked dry_run force answer now disk =
    (disk, err (load_failed e))
run_cleanup zone (ok c) fault unknown locked dry_run force answer now disk =
    if not (is_local c)
    then (disk, err cloud_storage)
    else clean_kept zone fault unknown locked dry_run force answer now (get_storage_path c)
        c.local.retention_days disk
