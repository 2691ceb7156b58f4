-- ===== src/Cleanup/Examples.antt =====
-- Two old backups and a new one, and the theorems on the cleanup at them.
use marmot_cli.Common.{
  ℕ, ◌≡◌, refl, true, false, not, ◌&&◌, [], ◌∷◌, none, some, Bytes, codes, ok, text_eq, is_empty,
  keep_if, if◌then◌else◌,
}
use marmot_cli.Files.{File, Disk, find_file, remove_file, read_dir}
use marmot_cli.Config.{get_storage_path}
use marmot_cli.Config.Examples.{with_shop}
use marmot_cli.Cleanup.{Zone, has_suffix, list_backup_files, delete_files, clean, run_cleanup}
use marmot_cli.Cleanup.Expired.{Distinct, is_due, may_go, clean_lem, run_cleanup_kept}

abbrev file : Bytes → File
file name = record { dir = codes "/b"; name = name; content = []; mod_time = 5; is_dir = false }

abbrev old : File
old = file (codes "a.enc")

abbrev other : File
other = file (codes "notes")

-- A day of local time ahead of the count: UTC, with no change of the clock.
abbrev utc : Zone
utc = record { ahead_now = 86400000000000; ahead_then = 86400000000000 }

abbrev disk : Disk
disk = old ∷ other ∷ []

-- Ten days after 5.
abbrev later : ℕ
later = 864000000000005

removed_one :
    clean utc (λ f. false) (λ n. false) false true [] later (codes "/b") 7 disk
    ≡ (other ∷ [], (1, 0))
unfolding clean list_backup_files delete_files has_suffix read_dir remove_file keep_if text_eq
removed_one = refl

disk-Distinct : Distinct disk
unfolding text_eq
disk-Distinct = ((refl, tt), (tt, tt))

old_found : find_file (codes "/b") (codes "a.enc") disk ≡ some old
unfolding find_file text_eq
old_found = refl

clean_lem_example :
    find_file
      (codes "/b")
      (codes "a.enc")
      (clean utc (λ f. false) (λ n. false) false true [] later (codes "/b") 7 disk).0
    ≡ (if is_due utc (λ f. false) (codes "/b") 7 later (codes "/b") old && not false
        then none
        else some old)
clean_lem_example =
    clean_lem utc (λ f. false) (λ n. false) [] later (codes "/b") 7 disk (codes "/b")
      (codes "a.enc") disk-Distinct old_found

elsewhere : may_go utc (ok with_shop) (λ f. false) later (codes "/b") old ≡ false
unfolding get_storage_path text_eq is_empty has_suffix
elsewhere = refl

run_cleanup_kept_example :
    find_file
      (codes "/b")
      (codes "a.enc")
      (run_cleanup utc (ok with_shop) none (λ f. false) (λ n. false) false true [] later disk).0
    ≡ some old
run_cleanup_kept_example =
    run_cleanup_kept utc (ok with_shop) none (λ f. false) (λ n. false) false true [] later disk
      (codes "/b") (codes "a.enc") disk-Distinct old_found elsewhere
