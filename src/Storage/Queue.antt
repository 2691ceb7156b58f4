-- ===== src/Storage/Queue.antt =====
-- The upload queue of internal/storage/queue.go: the table `upload_queue` and the statements that
-- the methods of `SQLiteQueue` run on it. Whether the database carries a statement out is an
-- argument of the method, `none` or the message of its error. A time column is the time itself.
pub mod Rows
pub mod Invariant
pub mod Order
pub mod Lookup
pub mod Names
pub mod Open
pub mod Examples
use marmot_cli.Common.{
  ℕ, suc, ◌+◌, Bool, not, List, [], ◌∷◌, ◌++◌, map, Option, none, some, Bytes, Result, ok, err, leb,
  text_eq, if◌then◌else◌, keep_if, any_of, head?,
}
use marmot_cli.Storage.{Time, BackupFile}

pub record Row : Type 0 where
  pub id : ℕ
  pub name : Bytes
  pub path : Bytes
  pub size : ℕ
  pub database_id : Bytes
  pub created_at : Time
  pub retry_count : ℕ
  pub last_error : Option Bytes
  pub last_retry_at : Option Time

-- The rows in the order of their ids, and the next value of AUTOINCREMENT.
pub record Table : Type 0 where
  pub rows : List Row
  pub next_id : ℕ

pub data QueueError : Type 0 where
  enqueue_failed dequeue_failed remove_failed peek_failed list_failed scan_failed :
      Bytes → QueueError
  increment_failed count_failed clear_failed : Bytes → QueueError
  not_found : Bytes → QueueError
  no_rows : QueueError

abbrev pub Fault : Type 0
Fault = Option Bytes

abbrev pub named : Bytes → Row → Bool
named name r = text_eq r.name name

-- `DELETE FROM upload_queue WHERE name = ?`
pub delete_named : Bytes → List Row → List Row
unfolding keep_if
delete_named name = keep_if (λ r. not (named name r))

-- `ORDER BY created_at ASC`, where rows of one time come in the order of their ids.
pub insert_by_time : Row → List Row → List Row
insert_by_time r [] = r ∷ []
insert_by_time r (x ∷ xs) =
    if leb r.created_at x.created_at then r ∷ x ∷ xs else x ∷ insert_by_time r xs

pub order_by_time : List Row → List Row
unfolding insert_by_time
order_by_time [] = []
order_by_time (r ∷ rs) = insert_by_time r (order_by_time rs)

-- `SELECT … WHERE name = ?`
pub find_row : Bytes → List Row → Option Row
find_row name [] = none
find_row name (r ∷ rs) = if named name r then some r else find_row name rs

abbrev pub new_row : ℕ → BackupFile → Row
new_row id b = record {
  id = id;
  name = b.name;
  path = b.path;
  size = b.size;
  database_id = b.database_id;
  created_at = b.created_at;
  retry_count = 0;
  last_error = none;
  last_retry_at = none;
}

-- `INSERT OR REPLACE`: a row of the same name goes, and the columns not listed get their defaults.
unfoldable pub enqueue : Fault → BackupFile → Table → Table × Result QueueError (Unit {0})
enqueue (some e) b t = (t, err (enqueue_failed e))
enqueue none b t = (
  record {
    rows = delete_named b.name t.rows ++ (new_row t.next_id b ∷ []);
    next_id = suc t.next_id;
  },
  ok tt,
)

-- What `Dequeue` and `Peek` scan: the retry columns are not selected.
abbrev pub scan_next : Row → BackupFile
scan_next r = record {
  name = r.name;
  path = r.path;
  size = r.size;
  created_at = r.created_at;
  database_id = r.database_id;
  retry_count = 0;
  last_retry_at = 0;
}

-- What `List` scans.
abbrev pub scan_item : Row → BackupFile
scan_item r = record {
  name = r.name;
  path = r.path;
  size = r.size;
  created_at = r.created_at;
  database_id = r.database_id;
  retry_count = r.retry_count;
  last_retry_at = elim r.last_retry_at [ none ↦ 0 | some t ↦ t ];
}

dequeue_row : Fault → Option Row → Table → Table × Result QueueError (Option BackupFile)
dequeue_row f none t = (t, ok none)
dequeue_row (some e) (some r) t = (t, err (remove_failed e))
dequeue_row none (some r) t =
    (record t { rows = delete_named r.name t.rows }, ok (some (scan_next r)))

-- The first fault is that of the query, the second that of the delete.
pub dequeue : Fault → Fault → Table → Table × Result QueueError (Option BackupFile)
unfolding dequeue_row
dequeue (some e) f t = (t, err (dequeue_failed e))
dequeue none f t = dequeue_row f (head? (order_by_time t.rows)) t

pub peek : Fault → Table → Result QueueError (Option BackupFile)
peek (some e) t = err (peek_failed e)
peek none t = ok (elim (head? (order_by_time t.rows)) [ none ↦ none | some r ↦ some (scan_next r) ])

-- The loop over the rows ends at the first row that cannot be scanned.
scan_rows : Fault → List Row → Result QueueError (List BackupFile)
scan_rows f [] = ok []
scan_rows (some e) (r ∷ rs) = err (scan_failed e)
scan_rows none (r ∷ rs) = ok (map scan_item (r ∷ rs))

pub list : Fault → Fault → Table → Result QueueError (List BackupFile)
unfolding scan_rows
list (some e) f t = err (list_failed e)
list none f t = scan_rows f (order_by_time t.rows)

abbrev pub retried : Bytes → Time → Row → Row
retried message now r = record r {
  retry_count = r.retry_count + 1;
  last_error = some message;
  last_retry_at = some now;
}

-- `UPDATE … WHERE name = ?`
pub update_named : Bytes → (Row → Row) → List Row → List Row
update_named name f [] = []
update_named name f (r ∷ rs) = (if named name r then f r else r) ∷ update_named name f rs

-- `message` is `err.Error()`, or empty for no error; `now` is `time.Now().UTC()`.
pub increment_retry : Fault → Bytes → Bytes → Time → Table → Table × Result QueueError (Unit {0})
increment_retry (some e) name message now t = (t, err (increment_failed e))
increment_retry none name message now t =
    (record t { rows = update_named name (retried message now) t.rows }, ok tt)

pub get_retry_count : Fault → Bytes → Table → Result QueueError ℕ
get_retry_count (some e) name t = err (count_failed e)
get_retry_count none name t = elim (find_row name t.rows) [
  | none ↦ err no_rows
  | some r ↦ ok r.retry_count
]

-- `RowsAffected` tells whether a row of the name was there.
pub remove : Fault → Bytes → Table → Table × Result QueueError (Unit {0})
remove (some e) name t = (t, err (remove_failed e))
remove none name t = (
  record t { rows = delete_named name t.rows },
  if any_of (named name) t.rows then ok tt else err (not_found name),
)

unfoldable pub clear : Fault → Table → Table × Result QueueError (Unit {0})
clear (some e) t = (t, err (clear_failed e))
clear none t = (record t { rows = [] }, ok tt)
