-- ===== src/Storage/Queue/Lookup.antt =====
-- The table as a map from names to rows: what each method does to the row of any name.
use marmot_cli.Common.{
  ℕ, ◌+◌, ◌≡◌, refl, true, false, List, [], ◌∷◌, ◌++◌, Option, none, some, arith, Bytes, ok, err,
  text_eq, text_eq_iff, text_eq_refl, if◌then◌else◌, keep_if, any_of,
}
use marmot_cli.Storage.{Time, BackupFile}
use marmot_cli.Storage.Queue.{
  Row, Table, not_found, named, delete_named, update_named, find_row, new_row, retried, enqueue,
  increment_retry, get_retry_count, remove,
}

find_row-delete_named :
    (m name : Bytes) (rs : List Row)
    → find_row m (delete_named name rs) ≡ (if text_eq name m then none else find_row m rs)
unfolding find_row delete_named keep_if
find_row-delete_named m name [] = ground arith
find_row-delete_named m name (r ∷ rs) = ground (
  arith,
  find_row-delete_named m name rs,
  text_eq_iff name m,
  text_eq_iff r.name m,
  text_eq_iff r.name name,
)

find_row-append :
    (m : Bytes) (rs : List Row) (x : Row)
    → find_row m (rs ++ (x ∷ []))
      ≡ elim (find_row m rs) [ some r ↦ some r | none ↦ if named m x then some x else none ]
unfolding find_row
find_row-append m [] x = refl
find_row-append m (r ∷ rs) x = ground (arith, find_row-append m rs x)

find_row-update_named :
    (m name : Bytes) (message : Bytes) (now : Time) (rs : List Row)
    → find_row m (update_named name (retried message now) rs) ≡ elim (find_row m rs) [
      | none ↦ none
      | some r ↦ if text_eq name m then some (retried message now r) else some r
    ]
unfolding find_row update_named
find_row-update_named m name message now [] = refl
find_row-update_named m name message now (r ∷ rs) = ground (
  arith,
  find_row-update_named m name message now rs,
  text_eq_iff name m,
  text_eq_iff r.name m,
  text_eq_iff r.name name,
)

-- The row of a name.
abbrev pub row_of : Bytes → Table → Option Row
row_of m t = find_row m t.rows

-- After an `Enqueue` that is carried out the backup's name has a new row with no retries, also
-- where the name was queued before, and every other name has the row it had.
pub row_of-enqueue :
    (m : Bytes) (b : BackupFile) (t : Table)
    → row_of m (enqueue none b t).0
      ≡ (if text_eq b.name m then some (new_row t.next_id b) else row_of m t)
unfolding enqueue
row_of-enqueue m b t =
    rw (find_row-append, find_row-delete_named) (ground (arith, text_eq_iff b.name m))

-- `IncrementRetry`, where it is carried out, adds one to the count of the name, if it is queued,
-- and notes the error and the time; every other row is as it was.
pub row_of-increment_retry :
    (m name message : Bytes) (now : Time) (t : Table)
    → row_of m (increment_retry none name message now t).0 ≡ elim (row_of m t) [
      | none ↦ none
      | some r ↦ if text_eq name m then some (retried message now r) else some r
    ]
unfolding increment_retry
row_of-increment_retry m name message now t = find_row-update_named m name message now t.rows

any_of-find_row :
    (name : Bytes) (rs : List Row)
    → any_of (named name) rs ≡ elim (find_row name rs) [ none ↦ false | some r ↦ true ]
unfolding any_of find_row
any_of-find_row name [] = refl
any_of-find_row name (r ∷ rs) = ground (arith, any_of-find_row name rs)

-- `Remove`, where it is carried out, drops the row of the name and no other, and fails exactly when
-- there was none.
pub row_of-remove :
    (m name : Bytes) (t : Table)
    → let (t', r) = remove none name t in
      (row_of m t' ≡ (if text_eq name m then none else row_of m t))
      × (r ≡ elim (row_of name t) [ none ↦ err (not_found name) | some _ ↦ ok tt ])
unfolding remove
row_of-remove m name t =
    (find_row-delete_named m name t.rows, ground (arith, any_of-find_row name t.rows))

-- The count that `GetRetryCount` returns starts at 0 when a backup is queued, and each
-- `IncrementRetry` of that name adds one to it.
pub get_retry_count-increment_retry :
    (b : BackupFile) (message : Bytes) (now : Time) (t : Table) {n : ℕ}
    → get_retry_count none b.name t ≡ ok n
    → (get_retry_count none b.name (enqueue none b t).0 ≡ ok 0)
      × (get_retry_count none b.name (increment_retry none b.name message now t).0 ≡ ok (n + 1))
unfolding get_retry_count
get_retry_count-increment_retry b message now t h = (
  ground (arith, row_of-enqueue b.name b t, text_eq_refl b.name),
  ground (arith, row_of-increment_retry b.name b.name message now t, text_eq_refl b.name),
)
