-- ===== src/Storage/Queue/Open.antt =====
-- `NewSQLiteQueue` of internal/storage/queue.go: how the file of the queue is opened.
pub mod Modes
use marmot_cli.Common.{
  Bool, true, false, not, ◌&&◌, ◌||◌, List, [], ◌∷◌, Option, none, some, Bytes, codes, contains,
  to_lower, Result, ok, err, ◌>>=◌, ◌>>◌, if◌then◌else◌, ◌≡◌,
}
use marmot_cli.Storage.Queue.{Fault}

-- The connection strings, behind the path: `?mode=ro&_query_only=1`, `?mode=ro&_journal_mode=DELETE`,
-- `?mode=ro` and `?_journal_mode=DELETE`.
pub data Connection : Type 0 where
  query_only read_only_delete read_only writable : Connection

-- What the calls of the system and of the driver find. A fault of `connect` is that of `sql.Open`, one of
-- `query` that of `SELECT 1`, one of `schema` that of `init`.
pub record Probe : Type 0 where
  pub file_exists : Bool
  pub file_opens_for_writing : Bool
  pub dir_exists : Bool
  pub dir_takes_files : Bool
  pub is_root : Bool
  pub can_read_file : Bool
  pub mkdir : Fault
  pub connect : Connection → Fault
  pub query : Connection → Fault
  pub pragma : Fault
  pub schema : Fault

pub data OpenError : Type 0 where
  permission_denied : OpenError
  read_only_failed mkdir_failed open_failed open_read_only_failed pragma_failed init_failed :
      Bytes → OpenError

-- `tryReadOnlyFirst`
unfoldable pub try_read_only_first : Probe → Bool
try_read_only_first p =
    let can_write = p.file_exists && p.file_opens_for_writing in
    let can_write_dir = p.dir_exists && p.dir_takes_files in
    p.file_exists && (not can_write || (not can_write_dir || not p.is_root))

unfoldable pub working : Fault → Fault → Fault
working (some e) query = some e
working none query = query

refused : Bytes → OpenError
refused e =
    let lower = to_lower e in
    if contains (codes "permission denied") lower
      || contains (codes "unable to open database file") lower
    then permission_denied
    else read_only_failed e

-- The first connection that works; the error is that of the last one.
unfoldable pub first_working : Probe → Bytes → List Connection → Result OpenError Connection
unfolding working refused
first_working p last [] = err (refused last)
first_working p last (c ∷ cs) = elim (working (p.connect c) (p.query c)) [
  | none ↦ ok c
  | some e ↦ first_working p e cs
]

-- The file opened again, without a query to test it.
unfoldable pub reopen : (Bytes → OpenError) → Probe → Result OpenError Connection
reopen f p = elim (p.connect query_only) [
  | none ↦ ok query_only
  | some e ↦ elim (p.connect read_only) [ none ↦ ok read_only | some d ↦ err (f d) ]
]

is_read_only : Bytes → Bool
is_read_only e =
    let lower = to_lower e in
    contains (codes "readonly") lower
    || (contains (codes "read-only") lower
        || (contains (codes "permission denied") lower
            || (contains (codes "unable to open") lower
                || contains (codes "attempt to write") lower)))

unfoldable pub initialised : Probe → Fault → Result OpenError Connection
unfolding is_read_only reopen
initialised p none = ok writable
initialised p (some e) =
    if p.file_exists && is_read_only e then reopen open_read_only_failed p else err (init_failed e)

unfoldable pub connected : Probe → Fault → Result OpenError Connection
unfolding initialised reopen
connected p (some e) = if p.file_exists then reopen open_failed p else err (open_failed e)
connected p none = elim p.pragma [ some e ↦ err (pragma_failed e) | none ↦ initialised p p.schema ]

unfoldable pub open_for_writing : Probe → Fault → Result OpenError Connection
unfolding connected reopen
open_for_writing p (some e) =
    if p.file_exists then reopen open_read_only_failed p else err (mkdir_failed e)
open_for_writing p none = connected p (p.connect writable)

unfoldable pub open_read_only : Probe → Result OpenError Connection
unfolding first_working
open_read_only p =
    if p.can_read_file
    then first_working p [] (query_only ∷ read_only_delete ∷ read_only ∷ [])
    else err permission_denied

unfoldable pub new_sqlite_queue : Probe → Result OpenError Connection
unfolding try_read_only_first open_read_only open_for_writing
new_sqlite_queue p = if try_read_only_first p then open_read_only p else open_for_writing p p.mkdir

-- The driver: the outcome of a statement that writes, on a connection, where it would have the given one
-- on a connection that takes it. `PRAGMA query_only` refuses every write.
pub record Driver : Type 0 where
  pub write : Connection → Fault → Fault
  pub refuses : (f : Fault) → (e : Bytes) × (write query_only f ≡ some e)
