-- ===== src/Agent/Retry.antt =====
-- `RetryFailedUploads` of internal/agent/agent.go. What it starts are goroutines that run `uploadBackup`.
pub mod Uploads
use marmot_cli.Common.{
  ℕ, zero, suc, ◌+◌, ◌*◌, ◌^◌, ◌≤◌, ◌<◌, ◌≡◌, ◌⊎◌, ◌↔◌, inl, inr, refl, sym, ap, ◌∙◌, subst, Bool,
  true, false, not, ◌&&◌, List, [], ◌∷◌, Option, none, some, arith, Bytes, Result, ok, err, leb,
  ltb, ◌==◌, leb→le, ltb→lt, Has, here, there, if◌then◌else◌,
}
use marmot_cli.Storage.{Time, BackupFile, minute}
use marmot_cli.Storage.Queue.{Fault, Table, QueueError, list}
use marmot_cli.Config.{Config, DatabaseConfig, get_database_by_id}

abbrev max_retries : ℕ
max_retries = 5

-- The item has been tried before and has to wait. The count is below five here, so that the shift and the
-- product stay far below 2 ^ 63.
abbrev backs_off : Time → BackupFile → Bool
backs_off now item =
    (ltb 0 item.retry_count && not (item.last_retry_at == 0))
    && ltb now (item.last_retry_at + 2 ^ item.retry_count * minute)

unfoldable pub to_retry : Config → Time → BackupFile → Option DatabaseConfig
to_retry c now item =
    if leb max_retries item.retry_count
    then none
    else if backs_off now item
    then none
    else get_database_by_id item.database_id c

started :
    BackupFile
    → Option DatabaseConfig
    → List (BackupFile × DatabaseConfig)
    → List (BackupFile × DatabaseConfig)
started item none rest = rest
started item (some db) rest = (item, db) ∷ rest

unfoldable pub retries : Config → Time → List BackupFile → List (BackupFile × DatabaseConfig)
unfolding started
retries c now [] = []
retries c now (item ∷ items) = started item (to_retry c now item) (retries c now items)

retry_listed :
    Config
    → Time
    → Result QueueError (List BackupFile)
    → Result QueueError (List (BackupFile × DatabaseConfig))
retry_listed c now (err e) = err e
retry_listed c now (ok items) = ok (retries c now items)

-- The uploads that are started; the two faults are those of the query and of the scan.
unfoldable pub retry_failed_uploads :
    Config → Fault → Fault → Time → Table → Result QueueError (List (BackupFile × DatabaseConfig))
unfolding retry_listed
retry_failed_uploads c query scan now t = retry_listed c now (list query scan t)

-- An item that is due: it failed less than five times, and it has not failed yet, or it was never tried, or
-- two to the number of its failures minutes have passed since the last one.
pub record IsDue (c : Config) (now : Time) (item : BackupFile) (db : DatabaseConfig) : Type 0 where
  pub few : item.retry_count < 5
  pub waited :
      (item.retry_count ≡ 0)
      ⊎ ((item.last_retry_at ≡ 0) ⊎ (item.last_retry_at + 2 ^ item.retry_count * minute ≤ now))
  pub known : get_database_by_id item.database_id c ≡ some db

to_retry-IsDue :
    (c : Config) (now : Time) (item : BackupFile) (db : DatabaseConfig)
    → (to_retry c now item ≡ some db) ↔ IsDue c now item db
unfolding to_retry
to_retry-IsDue c now item db = (λ h. ground arith, λ h. ground arith)

started-Has :
    (item other : BackupFile) (o : Option DatabaseConfig) (db : DatabaseConfig)
    (rest : List (BackupFile × DatabaseConfig))
    → Has (other, db) (started item o rest)
    → ((other ≡ item) × (o ≡ some db)) ⊎ Has (other, db) rest
unfolding started
started-Has item other none db rest h = inr h
started-Has item other (some d) db rest here = inl (refl, refl)
started-Has item other (some d) db rest (there h) = inr h

started-here :
    (item : BackupFile) (o : Option DatabaseConfig) (db : DatabaseConfig)
    (rest : List (BackupFile × DatabaseConfig))
    → o ≡ some db
    → Has (item, db) (started item o rest)
unfolding started
started-here item none db rest h = cc
started-here item (some d) db rest h = subst (λ x. Has (item, db) ((item, x) ∷ rest)) (cc) here

started-there :
    (item other : BackupFile) (o : Option DatabaseConfig) (db : DatabaseConfig)
    (rest : List (BackupFile × DatabaseConfig))
    → Has (other, db) rest
    → Has (other, db) (started item o rest)
unfolding started
started-there item other none db rest h = h
started-there item other (some d) db rest h = there h

retries_sound :
    (c : Config) (now : Time) (items : List BackupFile) (item : BackupFile) (db : DatabaseConfig)
    → Has (item, db) (retries c now items)
    → Has item items × IsDue c now item db
unfolding retries
retries_sound c now [] item db h = elim h [ ]
retries_sound c now (x ∷ items) item db h =
    elim (started-Has x item (to_retry c now x) db (retries c now items) h) [
      | inl (same, due) ↦ (
        subst (λ y. Has y (x ∷ items)) (sym same) here,
        (to_retry-IsDue c now item db).0 (ap (to_retry c now) same ∙ due),
      )
      | inr later ↦ let (has, due) = retries_sound c now items item db later in (there has, due)
    ]

retries_complete :
    (c : Config) (now : Time) (items : List BackupFile) (item : BackupFile) (db : DatabaseConfig)
    → Has item items
    → IsDue c now item db
    → Has (item, db) (retries c now items)
unfolding retries
retries_complete c now [] item db h due = elim h [ ]
retries_complete c now (x ∷ items) item db here due =
    started-here item (to_retry c now item) db (retries c now items)
      ((to_retry-IsDue c now item db).1 due)
retries_complete c now (x ∷ items) item db (there h) due =
    started-there x item (to_retry c now x) db (retries c now items)
      (retries_complete c now items item db h due)

-- Where the queue can be read, `RetryFailedUploads` starts an upload for exactly the queued items
-- that are due, each with the database of its id.
pub retry_failed_uploads-IsDue :
    (c : Config) (now : Time) (t : Table) (items : List BackupFile) (item : BackupFile)
    (db : DatabaseConfig)
    → list none none t ≡ ok items
    → (uploads : List (BackupFile × DatabaseConfig)) × (retry_failed_uploads c none none now t
        ≡ ok uploads)
      × (Has (item, db) uploads ↔ (Has item items × IsDue c now item db))
unfolding retry_failed_uploads retry_listed
retry_failed_uploads-IsDue c now t items item db h = (
  retries c now items,
  rw h refl,
  (retries_sound c now items item db, λ (has, due). retries_complete c now items item db has due),
)
