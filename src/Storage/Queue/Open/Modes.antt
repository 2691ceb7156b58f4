-- ===== src/Storage/Queue/Open/Modes.antt =====
-- When the queue is opened for writing, and what a queue that is not opened so does.
use marmot_cli.Common.{◌≡◌, ◌≢◌, ◌↔◌, ◌⊎◌, refl, true, false, none, some, arith, Bytes, Result, ok}
use marmot_cli.Storage.{BackupFile}
use marmot_cli.Storage.Queue.{Fault, Table, enqueue, clear}
use marmot_cli.Storage.Queue.Open.{
  Connection, query_only, writable, Probe, OpenError, open_read_only_failed, open_failed, Driver,
  try_read_only_first, first_working, reopen, initialised, connected, open_for_writing,
  open_read_only, new_sqlite_queue, working,
}

-- A connection that is not the writable one.
abbrev IsReader : Result OpenError Connection → Type 0
IsReader r = r ≢ ok writable

reopen-IsReader : (f : Bytes → OpenError) (p : Probe) → IsReader (reopen f p)
unfolding reopen
reopen-IsReader f p h = ground arith

open_read_only-IsReader : (p : Probe) → IsReader (open_read_only p)
unfolding open_read_only first_working working
open_read_only-IsReader p h = ground arith

initialised_writable : (p : Probe) (f : Fault) → initialised p f ≡ ok writable → f ≡ none
unfolding initialised
initialised_writable p none h = refl
initialised_writable p (some e) h = ground (arith, reopen-IsReader open_read_only_failed p)

connected_writable :
    (p : Probe) (f : Fault)
    → connected p f ≡ ok writable
    → (f ≡ none) × (p.pragma ≡ none) × (p.schema ≡ none)
unfolding connected
connected_writable p (some e) h = ground (arith, reopen-IsReader open_failed p)
connected_writable p none h = ground (arith, initialised_writable p p.schema)

open_for_writing_writable :
    (p : Probe) (f : Fault)
    → open_for_writing p f ≡ ok writable
    → (f ≡ none) × (p.connect writable ≡ none) × (p.pragma ≡ none) × (p.schema ≡ none)
unfolding open_for_writing
open_for_writing_writable p (some e) h = ground (arith, reopen-IsReader open_read_only_failed p)
open_for_writing_writable p none h =
    let (c, d, i) = connected_writable p (p.connect writable) h in (refl, c, d, i)

open_for_writing_works :
    (p : Probe) (f : Fault)
    → f ≡ none
    → p.connect writable ≡ none
    → p.pragma ≡ none
    → p.schema ≡ none
    → open_for_writing p f ≡ ok writable
unfolding open_for_writing connected initialised
open_for_writing_works p (some e) no_fault c d i = absurd (cc)
open_for_writing_works p none no_fault c d i = ground (arith)

-- The file is not there, or root can write it and can make files beside it.
abbrev pub CanWrite : Probe → Type 0
CanWrite p =
    (p.file_exists ≡ false)
    ⊎ ((p.file_opens_for_writing ≡ true)
        × (p.dir_exists ≡ true)
        × (p.dir_takes_files ≡ true)
        × (p.is_root ≡ true))

try_read_only_first_iff : (p : Probe) → (try_read_only_first p ≡ false) ↔ CanWrite p
unfolding try_read_only_first
try_read_only_first_iff p = ground arith

-- The queue is opened for writing exactly where the file is not there, or is one that root can write, in a
-- directory in which it can make files, and where no call on the way fails.
pub new_sqlite_queue_iff :
    (p : Probe)
    → (new_sqlite_queue p ≡ ok writable) ↔ (
        CanWrite p
        × (p.mkdir ≡ none)
        × (p.connect writable ≡ none)
        × (p.pragma ≡ none)
        × (p.schema ≡ none))
unfolding new_sqlite_queue
new_sqlite_queue_iff p = (
  λ h. ground (
    arith,
    try_read_only_first_iff p,
    open_read_only-IsReader p,
    open_for_writing_writable p p.mkdir,
  ),
  λ h. ground (arith, try_read_only_first_iff p, open_for_writing_works p p.mkdir),
)

-- A user other than root finds the file of the queue, and the first connection works.
pub record IsUserQueue (p : Probe) : Type 0 where
  pub not_root : p.is_root ≡ false
  pub there : p.file_exists ≡ true
  pub readable : p.can_read_file ≡ true
  pub connects : p.connect query_only ≡ none
  pub answers : p.query query_only ≡ none

pub new_sqlite_queue-query_only : (p : Probe) → IsUserQueue p → new_sqlite_queue p ≡ ok query_only
unfolding new_sqlite_queue try_read_only_first open_read_only first_working working
new_sqlite_queue-query_only p u =
    let root = u.not_root in
    let there = u.there in
    let readable = u.readable in
    let connects = u.connects in let answers = u.answers in ground arith

-- For a user other than root, where the file is there and can be read and the first connection opens and
-- answers, the queue is opened for queries only: an enqueue and a clear through it fail, and the table stays as
-- it is.
pub new_sqlite_queue_refuses :
    (p : Probe) (d : Driver) (f : Fault) (b : BackupFile) (t : Table)
    → IsUserQueue p
    → (c : Connection) × (new_sqlite_queue p ≡ ok c)
      × ((enqueue (d.write c f) b t).0 ≡ t)
      × ((enqueue (d.write c f) b t).1 ≢ ok tt)
      × ((clear (d.write c f) t).0 ≡ t)
      × ((clear (d.write c f) t).1 ≢ ok tt)
unfolding enqueue clear
new_sqlite_queue_refuses p d f b t user =
    let (e, not_written) = d.refuses f in
    (
      query_only,
      new_sqlite_queue-query_only p user,
      rw not_written refl,
      rw not_written (λ h. cc),
      rw not_written refl,
      rw not_written (λ h. cc),
    )
