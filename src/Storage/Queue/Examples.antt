-- ===== src/Storage/Queue/Examples.antt =====
-- Runs of the queue, and its theorems at concrete tables.
use marmot_cli.Common.{
  ◌≡◌, refl, List, [], ◌∷◌, none, some, arith, Bytes, codes, ok, err, text_eq, keep_if, any_of,
  ◌++◌, length,
}
use marmot_cli.Storage.{BackupFile}
use marmot_cli.Storage.Queue.{
  Row, Table, not_found, delete_named, order_by_time, find_row, new_row, retried, enqueue, list,
  get_retry_count, remove,
}
use marmot_cli.Storage.Queue.Invariant.{
  IsValid, dequeues, removes, step, run, run-IsValid, step_error_unchanged,
}
use marmot_cli.Storage.Queue.Order.{drain, drain-list}

abbrev pub backup : Bytes → BackupFile
backup name = record {
  name = name;
  path = codes "/var/" ++ name;
  size = 10;
  created_at = length name;
  database_id = codes "pg";
  retry_count = 0;
  last_retry_at = 0;
}

abbrev pub old_backup : BackupFile
old_backup = record (backup (codes "a")) { created_at = 5 }

abbrev pub new_backup : BackupFile
new_backup = record (backup (codes "b")) { created_at = 9 }

abbrev empty : Table
empty = record { rows = []; next_id = 1 }

-- The newer backup was queued first.
abbrev pub two : Table
two = record { rows = new_row 1 new_backup ∷ new_row 2 old_backup ∷ []; next_id = 3 }

two_queued : (enqueue none old_backup (enqueue none new_backup empty).0).0 ≡ two
unfolding enqueue delete_named keep_if text_eq
two_queued = refl

pub two_listed : list none none two ≡ ok (old_backup ∷ new_backup ∷ [])
unfolding list order_by_time
two_listed = refl

two-IsValid : IsValid two
unfolding text_eq
two-IsValid = record {
  distinct = ((refl, tt), (tt, tt));
  below = omega arith;
  rising = omega arith;
}

missing : (remove none (codes "c") two).1 ≡ err (not_found (codes "c"))
unfolding remove any_of text_eq
missing = refl

remove_fails : (step (removes none (codes "c")) two).1 ≡ some (not_found (codes "c"))
unfolding step remove any_of text_eq
remove_fails = refl

not_retried : get_retry_count none (codes "a") two ≡ ok 0
unfolding get_retry_count find_row text_eq
not_retried = refl

run-IsValid_example : IsValid (run (dequeues none none ∷ removes none (codes "a") ∷ []) two)
run-IsValid_example =
    run-IsValid (dequeues none none ∷ removes none (codes "a") ∷ []) two two-IsValid

step_error_unchanged_example : (step (removes none (codes "c")) two).0 ≡ two
step_error_unchanged_example = step_error_unchanged (removes none (codes "c")) two remove_fails

drain-list_example :
    ((drain 2 two).0 ≡ ok (some old_backup) ∷ ok (some new_backup) ∷ [])
    × (list none none (drain 2 two).1 ≡ ok [])
drain-list_example = drain-list (old_backup ∷ new_backup ∷ []) two two-IsValid two_listed

abbrev failed_once : Row
failed_once = retried (codes "down") 77 (new_row 2 old_backup)
