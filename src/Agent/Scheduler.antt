-- ===== src/Agent/Scheduler.antt =====
-- The scheduler of internal/agent/scheduler.go. The cron library is an interface: its entries, each with
-- its id and its job. What the jobs do when their time comes is in Agent.Backup and Agent.Retry.
pub mod Ids
pub mod Entries
pub mod Examples
use marmot_cli.Common.{
  ℕ, ◌≡◌, Bool, true, false, not, ◌&&◌, List, [], ◌∷◌, ◌++◌, Option, none, some, Bytes, codes,
  text_eq, is_empty, Result, ok, err, ◌==◌, keep_if, All, if◌then◌else◌,
}
use marmot_cli.Config.{Config, DatabaseConfig, get_database_by_id}

pub data Job : Type 0 where
  backs_up : DatabaseConfig → Job
  retries_uploads : Job

-- robfig/cron: an entry that is added gets an id that no entry has; one that is removed is gone.
pub record Cron : Type 1 where
  pub State : Type 0
  pub add_func : Bytes → Job → State → Result Bytes (State × ℕ)
  pub remove : ℕ → State → State
  pub entries : State → List (ℕ × Job)
  pub entries-add_func :
      (spec : Bytes) (job : Job) (s : State) {s' : State} {id : ℕ}
      → add_func spec job s ≡ ok (s', id)
      → (entries s' ≡ entries s ++ ((id, job) ∷ [])) × All (λ e. (e.0 == id) ≡ false) (entries s)
  pub entries-remove :
      (id : ℕ) (s : State) → entries (remove id s) ≡ keep_if (λ e. not (e.0 == id)) (entries s)

-- `entryIDs`
abbrev pub EntryIds : Type 0
EntryIds = List (Bytes × ℕ)

unfoldable pub entry_id : Bytes → EntryIds → Option ℕ
entry_id name [] = none
entry_id name ((n, id) ∷ ids) = if text_eq n name then some id else entry_id name ids

-- `delete(m, name)`, and `m[name] = id`.
unfoldable pub delete_id : Bytes → EntryIds → EntryIds
delete_id name [] = []
delete_id name ((n, id) ∷ ids) =
    let rest = delete_id name ids in if text_eq n name then rest else (n, id) ∷ rest

unfoldable pub set_id : Bytes → ℕ → EntryIds → EntryIds
unfolding delete_id
set_id name id ids = (name, id) ∷ delete_id name ids

pub data SchedulerError : Type 0 where
  unknown_database no_schedule not_scheduled : Bytes → SchedulerError
  add_failed : Bytes → SchedulerError

module _ (cron : Cron) where
  pub record Scheduler : Type 0 where
    pub jobs : cron.State
    pub entry_ids : EntryIds
    pub is_running : Bool

  -- The old entry is removed first, also where the new one is then not accepted.
  remove_old : Option ℕ → cron.State → cron.State
  remove_old none s = s
  remove_old (some id) s = cron.remove id s

  set_entry :
      Bytes
      → EntryIds
      → Bool
      → cron.State
      → Result Bytes (cron.State × ℕ)
      → Scheduler × Result SchedulerError (Unit {0})
  set_entry name ids r s (err e) =
      (record { jobs = s; entry_ids = ids; is_running = r }, err (add_failed e))
  set_entry name ids r s (ok (s', id)) =
      (record { jobs = s'; entry_ids = set_id name id ids; is_running = r }, ok tt)

  schedule_found :
      Bytes → Option DatabaseConfig → Scheduler → Scheduler × Result SchedulerError (Unit {0})
  unfolding remove_old set_entry
  schedule_found name none s = (s, err (unknown_database name))
  schedule_found name (some db) s =
      if is_empty db.schedule
      then (s, err (no_schedule name))
      else (let jobs = remove_old (entry_id name s.entry_ids) s.jobs in
          set_entry name s.entry_ids s.is_running jobs
            (cron.add_func db.schedule (backs_up db) jobs))

  unfoldable pub schedule_database :
      Config → Bytes → Scheduler → Scheduler × Result SchedulerError (Unit {0})
  unfolding schedule_found
  schedule_database c name s = schedule_found name (get_database_by_id name c) s

  unschedule_found : Bytes → Option ℕ → Scheduler → Scheduler × Result SchedulerError (Unit {0})
  unschedule_found name none s = (s, err (not_scheduled name))
  unschedule_found name (some id) s =
      (record s { jobs = cron.remove id s.jobs; entry_ids = delete_id name s.entry_ids }, ok tt)

  unfoldable pub unschedule_database :
      Bytes → Scheduler → Scheduler × Result SchedulerError (Unit {0})
  unfolding unschedule_found
  unschedule_database name s = unschedule_found name (entry_id name s.entry_ids) s

  -- The loop of `Start` ends at the first database that cannot be scheduled.
  then_schedule :
      Scheduler × Result SchedulerError (Unit {0})
      → (Scheduler → Scheduler × Result SchedulerError (Unit {0}))
      → Scheduler × Result SchedulerError (Unit {0})
  then_schedule (s, err e) k = (s, err e)
  then_schedule (s, ok done) k = k s

  schedule_all :
      Config → List DatabaseConfig → Scheduler → Scheduler × Result SchedulerError (Unit {0})
  unfolding then_schedule
  schedule_all c [] s = (s, ok tt)
  schedule_all c (db ∷ dbs) s =
      if db.enabled && not (is_empty db.schedule)
      then then_schedule (schedule_database c db.id s) (λ s'. schedule_all c dbs s')
      else schedule_all c dbs s

  add_retry :
      Scheduler → Result Bytes (cron.State × ℕ) → Scheduler × Result SchedulerError (Unit {0})
  add_retry s (err e) = (s, err (add_failed e))
  add_retry s (ok (s', id)) = (record s { jobs = s'; is_running = true }, ok tt)

  -- `Start`, which also starts one retry at once: see Agent.Retry.
  unfoldable pub start : Config → Scheduler → Scheduler × Result SchedulerError (Unit {0})
  unfolding schedule_all then_schedule add_retry
  start c s =
      then_schedule (schedule_all c c.databases s)
        (λ s'. add_retry s' (cron.add_func (codes "0 */5 * * * *") retries_uploads s'.jobs))

  unfoldable pub stop : Scheduler → Scheduler
  stop s = record s { is_running = false }
