-- ===== src/Cleanup/Expired.antt =====
-- Which files a cleanup removes.
use marmot_cli.Common.{
  ℕ, zero, suc, ◌+◌, ◌≡◌, inl, inr, refl, ap, ◌∙◌, Bool, true, false, not, ◌&&◌, ◌||◌, List, [],
  ◌∷◌, Option, none, some, arith, Bytes, text_eq, text_eq_iff, Bool-cases, subst, Result, ok, err,
  ltb, length, keep_if, All, if◌then◌else◌, ℤ, pos, negsuc,
}
use marmot_cli.Files.{File, Disk, at, find_file, remove_file, read_dir}
use marmot_cli.Files.Laws.{find_file-remove_file}
use marmot_cli.Storage.{Time}
use marmot_cli.Config.{Config, get_storage_path, is_local}
use marmot_cli.Cleanup.{
  Zone, is_backup, list_backup_files, cutoff, delete_files, confirmed, clean, clean_kept,
  run_cleanup,
}

-- Some file of the list has the name.
unfoldable pub is_named : Bytes → List File → Bool
is_named name [] = false
is_named name (f ∷ fs) = text_eq f.name name || is_named name fs

find_file-delete_files :
    (locked : Bytes → Bool) (dir e m : Bytes) (fs : List File) (disk : Disk)
    → find_file e m (delete_files locked dir fs disk).0
      ≡ (if text_eq dir e && (is_named m fs && not (locked m)) then none else find_file e m disk)
unfolding delete_files is_named
find_file-delete_files locked dir e m [] disk = ground arith
find_file-delete_files locked dir e m (f ∷ fs) disk = ground (
  arith,
  find_file-delete_files locked dir e m fs disk,
  find_file-delete_files locked dir e m fs (remove_file dir f.name disk),
  find_file-remove_file e m dir f.name disk,
  text_eq_iff f.name m,
)

-- No two files have one place.
abbrev pub Distinct : Disk → Type 0
Distinct [] = Unit
Distinct (f ∷ fs) = All (λ g. at f.dir f.name g ≡ false) fs × Distinct fs

abbrev pub is_old : Zone → ℕ → Time → File → Bool
is_old zone days now f = ltb f.mod_time (cutoff zone days now)

expired : Zone → (File → Bool) → Bytes → ℕ → Time → Disk → List File
unfolding list_backup_files keep_if read_dir
expired zone unknown dir days now disk =
    keep_if (is_old zone days now) (list_backup_files unknown dir disk)

expired_alone :
    (zone : Zone) (unknown : File → Bool) (dir m : Bytes) (days : ℕ) (now : Time) (fs : Disk)
    → All (λ g. at dir m g ≡ false) fs
    → is_named m (expired zone unknown dir days now fs) ≡ false
unfolding expired is_named
expired_alone zone unknown dir m days now [] h = refl
expired_alone zone unknown dir m days now (f ∷ fs) h =
    ground (arith, expired_alone zone unknown dir m days now fs h.1)

expired_found :
    (zone : Zone) (unknown : File → Bool) (dir m : Bytes) (days : ℕ) (now : Time) (fs : Disk)
    {f : File}
    → Distinct fs
    → find_file dir m fs ≡ some f
    → is_named m (expired zone unknown dir days now fs)
      ≡ (is_backup unknown f && is_old zone days now f)
unfolding expired is_named find_file
expired_found zone unknown dir m days now [] d h = cc
expired_found zone unknown dir m days now (g ∷ fs) {f} d h = elim (Bool-cases (at dir m g)) [
  | inl this ↦
      let in_dir : g.dir ≡ dir = ground (arith, text_eq_iff g.dir dir) in
      let has_name : g.name ≡ m = ground (arith, text_eq_iff g.name m) in
      let rest = subst (λ e. All (λ x. at e g.name x ≡ false) fs) in_dir d.0 in
      let alone =
        expired_alone zone unknown dir m days now fs
          (subst (λ n. All (λ x. at dir n x ≡ false) fs) has_name rest) in
      ground (arith, text_eq_iff g.dir dir, text_eq_iff g.name m)
  | inr other ↦
      let later : find_file dir m fs ≡ some f = ground arith in
      ground (
        arith,
        expired_found zone unknown dir m days now fs {f = f} d.1 later,
        text_eq_iff g.dir dir,
      )
]

counts-delete_files :
    (locked : Bytes → Bool) (dir : Bytes) (fs : List File) (disk : Disk)
    → (delete_files locked dir fs disk).1.0 + (delete_files locked dir fs disk).1.1 ≡ length fs
unfolding delete_files
counts-delete_files locked dir [] disk = refl
counts-delete_files locked dir (f ∷ fs) disk = ground (
  arith,
  counts-delete_files locked dir fs (if locked f.name then disk else remove_file dir f.name disk),
)

-- A file that the cleanup is to remove: a backup in the storage directory, older than the retention.
abbrev pub is_due : Zone → (File → Bool) → Bytes → ℕ → Time → Bytes → File → Bool
is_due zone unknown dir days now e f =
    text_eq dir e && (is_backup unknown f && is_old zone days now f)

clean-expired :
    (zone : Zone) (unknown : File → Bool) (locked : Bytes → Bool) (answer : Bytes) (now : Time)
    (dir : Bytes) (days : ℕ) (disk : Disk) (e m : Bytes)
    → find_file e m (clean zone unknown locked false true answer now dir days disk).0
      ≡ find_file e m (delete_files locked dir (expired zone unknown dir days now disk) disk).0
unfolding clean expired
clean-expired zone unknown locked answer now dir days disk e m = refl

-- A cleanup that is forced, on files of which no two have one place, removes the backups of the
-- storage directory that are older than the retention, where they can be removed, and no other
-- file.
pub clean_lem :
    (zone : Zone) (unknown : File → Bool) (locked : Bytes → Bool) (answer : Bytes) (now : Time)
    (dir : Bytes) (days : ℕ) (disk : Disk) (e m : Bytes) {f : File}
    → Distinct disk
    → find_file e m disk ≡ some f
    → find_file e m (clean zone unknown locked false true answer now dir days disk).0
      ≡ (if is_due zone unknown dir days now e f && not (locked m) then none else some f)
clean_lem zone unknown locked answer now dir days disk e m {f} d h =
    clean-expired zone unknown locked answer now dir days disk e m
    ∙ find_file-delete_files locked dir e m (expired zone unknown dir days now disk) disk
    ∙ (elim (Bool-cases (text_eq dir e)) [
      | inl this ↦
          let same : dir ≡ e = (text_eq_iff dir e).0 this in
          let found : is_named m (expired zone unknown dir days now disk)
              ≡ (is_backup unknown f && is_old zone days now f) =
            expired_found zone unknown dir m days now disk {f = f} d (rw same h) in
          rw (this, found, h) refl
      | inr other ↦ rw (other, h) refl
    ])

clean-confirmed :
    (zone : Zone) (unknown : File → Bool) (locked : Bytes → Bool) (force : Bool) (answer : Bytes)
    (now : Time) (dir : Bytes) (days : ℕ) (disk : Disk)
    → confirmed force answer ≡ true
    → clean zone unknown locked false force answer now dir days disk
      ≡ clean zone unknown locked false true answer now dir days disk
unfolding clean
clean-confirmed zone unknown locked force answer now dir days disk agreed = rw agreed refl

clean_refused :
    (zone : Zone) (unknown : File → Bool) (locked : Bytes → Bool) (force : Bool) (answer : Bytes)
    (now : Time) (dir : Bytes) (days : ℕ) (disk : Disk)
    → confirmed force answer ≡ false
    → clean zone unknown locked false force answer now dir days disk ≡ (disk, (0, 0))
unfolding clean
clean_refused zone unknown locked force answer now dir days disk denied = rw denied refl

clean_not_due :
    (zone : Zone) (unknown : File → Bool) (locked : Bytes → Bool) (dry_run force : Bool)
    (answer : Bytes) (now : Time) (dir : Bytes) (days : ℕ) (disk : Disk) (e m : Bytes) {f : File}
    → Distinct disk
    → find_file e m disk ≡ some f
    → is_due zone unknown dir days now e f ≡ false
    → find_file e m (clean zone unknown locked dry_run force answer now dir days disk).0 ≡ some f
clean_not_due zone unknown locked true force answer now dir days disk e m d h not_due =
    unfold clean in h
clean_not_due zone unknown locked false force answer now dir days disk e m {f} d h not_due =
    let forced : find_file e m (clean zone unknown locked false true answer now dir days disk).0
        ≡ some f =
      clean_lem zone unknown locked answer now dir days disk e m d h ∙ rw not_due refl in
    elim (Bool-cases (confirmed force answer)) [
      | inl agreed ↦
          ap (λ w. find_file e m w.0)
            (clean-confirmed zone unknown locked force answer now dir days disk agreed)
          ∙ forced
      | inr denied ↦
          ap (λ w. find_file e m w.0)
            (clean_refused zone unknown locked force answer now dir days disk denied)
          ∙ h
    ]

-- What may go: with a configuration that was read, local storage and a positive retention.
abbrev pub due_for_days : Zone → (File → Bool) → Bytes → ℤ → Time → Bytes → File → Bool
due_for_days zone unknown dir (negsuc n) now e f = false
due_for_days zone unknown dir (pos zero) now e f = false
due_for_days zone unknown dir (pos (suc n)) now e f = is_due zone unknown dir (suc n) now e f

abbrev pub may_go : Zone → Result Bytes Config → (File → Bool) → Time → Bytes → File → Bool
may_go zone (err e) unknown now dir f = false
may_go zone (ok c) unknown now dir f =
    is_local c && due_for_days zone unknown (get_storage_path c) c.local.retention_days now dir f

clean_kept_not_due :
    (zone : Zone) (fault : Option Bytes) (unknown : File → Bool) (locked : Bytes → Bool)
    (dry_run force : Bool) (answer : Bytes) (now : Time) (dir : Bytes) (days : ℤ) (disk : Disk)
    (e m : Bytes) {f : File}
    → Distinct disk
    → find_file e m disk ≡ some f
    → due_for_days zone unknown dir days now e f ≡ false
    → find_file e m (clean_kept zone fault unknown locked dry_run force answer now dir days disk).0
      ≡ some f
unfolding clean_kept
clean_kept_not_due zone fault unknown locked dry_run force answer now dir (negsuc n) disk e m d h
      k =
    h
clean_kept_not_due zone fault unknown locked dry_run force answer now dir (pos zero) disk e m d h
      k =
    h
clean_kept_not_due zone (some x) unknown locked dry_run force answer now dir (pos (suc n)) disk e m
      d h k =
    h
clean_kept_not_due zone none unknown locked dry_run force answer now dir (pos (suc n)) disk e m d h
      k =
    clean_not_due zone unknown locked dry_run force answer now dir (suc n) disk e m d h k

-- Whatever is answered and whatever fails, `marmot cleanup` keeps each file that is not a backup in
-- the storage directory of a local configuration, older than a positive retention, where no two
-- files have one place.
pub run_cleanup_kept :
    (zone : Zone) (loaded : Result Bytes Config) (fault : Option Bytes) (unknown : File → Bool)
    (locked : Bytes → Bool) (dry_run force : Bool) (answer : Bytes) (now : Time) (disk : Disk)
    (e m : Bytes) {f : File}
    → Distinct disk
    → find_file e m disk ≡ some f
    → may_go zone loaded unknown now e f ≡ false
    → find_file e m (run_cleanup zone loaded fault unknown locked dry_run force answer now disk).0
      ≡ some f
unfolding run_cleanup
run_cleanup_kept zone (err x) fault unknown locked dry_run force answer now disk e m d h k = h
run_cleanup_kept zone (ok c) fault unknown locked dry_run force answer now disk e m d h k =
    elim (Bool-cases (is_local c)) [
      | inl agreed ↦ rw agreed (
          clean_kept_not_due zone fault unknown locked dry_run force answer now (get_storage_path c)
            c.local.retention_days disk e m d h (rw agreed at k))
      | inr denied ↦ rw denied h
    ]
