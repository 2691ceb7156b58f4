-- ===== src/Agent/Scheduler/Entries.antt =====
-- The entries of cron and the map of them.
use marmot_cli.Common.{
  ℕ, ◌≡◌, refl, sym, ap, subst, Bool, true, false, not, ◌&&◌, List, [], ◌∷◌, Option, none, some,
  arith, Bytes, text_eq_refl, is_empty, Result, ok, err, ◌==◌, All, All-append, Has, here, there,
  if◌then◌else◌,
}
use marmot_cli.Config.{Config, DatabaseConfig, get_database_by_id}
use marmot_cli.Agent.Scheduler.{
  Job, backs_up, retries_uploads, Cron, EntryIds, entry_id, delete_id, set_id, SchedulerError,
  no_schedule, Scheduler, remove_old, set_entry, schedule_found, schedule_database,
  unschedule_found, unschedule_database, then_schedule, schedule_all, add_retry, start, stop,
}
use marmot_cli.Agent.Scheduler.Ids.{
  entry_id-set_id, find_database-id, IsOwn, IsOther, All-kept, All-each, IsOther-none, IsOther-kept,
  IsOwn-set_id, IsOwn-delete_id, IsOwn-IsOther,
}

module _ (cron : Cron) where
  abbrev pub IsConsistent : Scheduler cron → Type 0
  IsConsistent s = All (IsOwn s.entry_ids) (cron.entries s.jobs)

  remove_old-IsOther :
      (name : Bytes) (ids : EntryIds) (s : cron.State) (o : Option ℕ)
      → entry_id name ids ≡ o
      → All (IsOwn ids) (cron.entries s)
      → All (IsOther name ids) (cron.entries (remove_old cron o s))
  unfolding remove_old
  remove_old-IsOther name ids s none h own =
      All-each (IsOwn ids) (IsOther name ids) (cron.entries s) (λ e. IsOther-none name ids e h) own
  remove_old-IsOther name ids s (some old) h own =
      subst (All (IsOther name ids)) (sym (cron.entries-remove old s)) (
        All-kept (IsOwn ids) (IsOther name ids) (λ e. not (e.0 == old)) (cron.entries s)
          (λ e. IsOther-kept name ids old e h) own)

  set_entry-IsConsistent :
      (db : DatabaseConfig) (ids : EntryIds) (r : Bool) (s : cron.State)
      (added : Result Bytes (cron.State × ℕ))
      → cron.add_func db.schedule (backs_up db) s ≡ added
      → All (IsOther db.id ids) (cron.entries s)
      → IsConsistent (set_entry cron db.id ids r s added).0
  unfolding set_entry
  set_entry-IsConsistent db ids r s (err e) h others =
      All-each (IsOther db.id ids) (IsOwn ids) (cron.entries s) (IsOwn-IsOther db.id ids) others
  set_entry-IsConsistent db ids r s (ok (s', id)) h others =
      let (now, fresh) = cron.entries-add_func db.schedule (backs_up db) s h in
      let ids' = set_id db.id id ids in
      let mine : entry_id db.id ids' ≡ some id =
        ground (arith, entry_id-set_id db.id db.id id ids, text_eq_refl db.id) in
      subst (All (IsOwn ids')) (sym now) (
        All-append (IsOwn ids') (cron.entries s) ((id, backs_up db) ∷ [])
          (All-each (IsOther db.id ids) (IsOwn ids') (cron.entries s) (IsOwn-set_id db.id ids id)
            others)
          (mine, tt))

  if-IsConsistent :
      (b : Bool) (p q : Scheduler cron × Result SchedulerError (Unit {0}))
      → IsConsistent p.0
      → IsConsistent q.0
      → IsConsistent (if b then p else q).0
  if-IsConsistent true p q hp hq = hp
  if-IsConsistent false p q hp hq = hq

  scheduled :
      (db : DatabaseConfig) (s : Scheduler cron)
      → IsConsistent s
      → IsConsistent (schedule_found cron db.id (some db) s).0
  unfolding schedule_found
  scheduled db s h =
      let old = entry_id db.id s.entry_ids in
      let jobs = remove_old cron old s.jobs in
      let others = remove_old-IsOther db.id s.entry_ids s.jobs old refl h in
      if-IsConsistent (is_empty db.schedule) (s, err (no_schedule db.id))
        (set_entry cron db.id s.entry_ids s.is_running jobs
          (cron.add_func db.schedule (backs_up db) jobs))
        h
        (set_entry-IsConsistent db s.entry_ids s.is_running jobs
          (cron.add_func db.schedule (backs_up db) jobs) refl others)

  schedule_found-IsConsistent :
      (name : Bytes) (o : Option DatabaseConfig) (s : Scheduler cron)
      → ((db : DatabaseConfig) → o ≡ some db → db.id ≡ name)
      → IsConsistent s
      → IsConsistent (schedule_found cron name o s).0
  unfolding schedule_found
  schedule_found-IsConsistent name none s named h = h
  schedule_found-IsConsistent name (some db) s named h =
      subst (λ n. IsConsistent (schedule_found cron n (some db) s).0) (named db refl)
        (scheduled db s h)

  schedule_database-IsConsistent :
      (c : Config) (name : Bytes) (s : Scheduler cron)
      → IsConsistent s
      → IsConsistent (schedule_database cron c name s).0
  unfolding schedule_database
  schedule_database-IsConsistent c name s h =
      schedule_found-IsConsistent name (get_database_by_id name c) s
        (λ db found. find_database-id name c.databases found) h

  unschedule_found-IsConsistent :
      (name : Bytes) (o : Option ℕ) (s : Scheduler cron)
      → entry_id name s.entry_ids ≡ o
      → IsConsistent s
      → IsConsistent (unschedule_found cron name o s).0
  unfolding unschedule_found
  unschedule_found-IsConsistent name none s e h = h
  unschedule_found-IsConsistent name (some id) s e h =
      let others : All (IsOther name s.entry_ids) (cron.entries (cron.remove id s.jobs)) =
        unfold remove_old in remove_old-IsOther name s.entry_ids s.jobs (some id) e h in
      All-each (IsOther name s.entry_ids) (IsOwn (delete_id name s.entry_ids))
        (cron.entries (cron.remove id s.jobs)) (IsOwn-delete_id name s.entry_ids) others

  then_schedule-IsConsistent :
      (r : Scheduler cron × Result SchedulerError (Unit {0}))
      (k : Scheduler cron → Scheduler cron × Result SchedulerError (Unit {0}))
      → IsConsistent r.0
      → ((s : Scheduler cron) → IsConsistent s → IsConsistent (k s).0)
      → IsConsistent (then_schedule cron r k).0
  unfolding then_schedule
  then_schedule-IsConsistent (s, err e) k h next = h
  then_schedule-IsConsistent (s, ok done) k h next = next s h

  schedule_all-IsConsistent :
      (c : Config) (dbs : List DatabaseConfig) (s : Scheduler cron)
      → IsConsistent s
      → IsConsistent (schedule_all cron c dbs s).0
  unfolding schedule_all
  schedule_all-IsConsistent c [] s h = h
  schedule_all-IsConsistent c (db ∷ dbs) s h =
      if-IsConsistent (db.enabled && not (is_empty db.schedule))
        (then_schedule cron (schedule_database cron c db.id s) (λ s'. schedule_all cron c dbs s'))
        (schedule_all cron c dbs s)
        (then_schedule-IsConsistent (schedule_database cron c db.id s)
          (λ s'. schedule_all cron c dbs s') (schedule_database-IsConsistent c db.id s h)
          (schedule_all-IsConsistent c dbs))
        (schedule_all-IsConsistent c dbs s h)

  add_retry-IsConsistent :
      (s : Scheduler cron) (spec : Bytes) (r : Result Bytes (cron.State × ℕ))
      → cron.add_func spec retries_uploads s.jobs ≡ r
      → IsConsistent s
      → IsConsistent (add_retry cron s r).0
  unfolding add_retry
  add_retry-IsConsistent s spec (err e) a h = h
  add_retry-IsConsistent s spec (ok (s', id)) a h =
      let (now, fresh) = cron.entries-add_func spec retries_uploads s.jobs a in
      subst (All (IsOwn s.entry_ids)) (sym now) (
        All-append (IsOwn s.entry_ids) (cron.entries s.jobs) ((id, retries_uploads) ∷ []) h
          (tt, tt))

  pub data Call : Type 0 where
    starts : Config → Call
    schedules : Config → Bytes → Call
    unschedules : Bytes → Call
    stops : Call

  unfoldable pub call : Call → Scheduler cron → Scheduler cron
  call (starts c) s = (start cron c s).0
  call (schedules c name) s = (schedule_database cron c name s).0
  call (unschedules name) s = (unschedule_database cron name s).0
  call stops s = stop cron s

  unfoldable pub run : List Call → Scheduler cron → Scheduler cron
  run [] s = s
  run (c ∷ cs) s = run cs (call c s)

  call-IsConsistent : (c : Call) (s : Scheduler cron) → IsConsistent s → IsConsistent (call c s)
  unfolding call start unschedule_database stop
  call-IsConsistent (starts c) s h =
      then_schedule-IsConsistent (schedule_all cron c c.databases s) _
        (schedule_all-IsConsistent c c.databases s h) (λ s' k. add_retry-IsConsistent s' _ _ refl k)
  call-IsConsistent (schedules c name) s h = schedule_database-IsConsistent c name s h
  call-IsConsistent (unschedules name) s h = unschedule_found-IsConsistent name _ s refl h
  call-IsConsistent stops s h = h

  run-IsConsistent :
      (cs : List Call) (s : Scheduler cron) → IsConsistent s → IsConsistent (run cs s)
  unfolding run
  run-IsConsistent [] s h = h
  run-IsConsistent (c ∷ cs) s h = run-IsConsistent cs (call c s) (call-IsConsistent c s h)

  Has-IsOwn :
      (ids : EntryIds) (es : List (ℕ × Job)) (e : ℕ × Job)
      → Has e es
      → All (IsOwn ids) es
      → IsOwn ids e
  Has-IsOwn ids [] e h own = elim h [ ]
  Has-IsOwn ids (x ∷ es) e here own = own.0
  Has-IsOwn ids (x ∷ es) e (there h) own = Has-IsOwn ids es e h own.1

  -- Whatever calls of `Start`, `ScheduleDatabase`, `UnscheduleDatabase` and `Stop` were made from
  -- an empty cron on, with whatever configurations and whichever of them failing, a database has
  -- one entry of cron at most: two entries that back up a database of the same id are one.
  pub run_one_entry :
      (cs : List Call) (s : Scheduler cron) (i j : ℕ) (d e : DatabaseConfig)
      → cron.entries s.jobs ≡ []
      → Has (i, backs_up d) (cron.entries (run cs s).jobs)
      → Has (j, backs_up e) (cron.entries (run cs s).jobs)
      → d.id ≡ e.id
      → i ≡ j
  run_one_entry cs s i j d e empty one two same =
      let all = run-IsConsistent cs s (subst (All (IsOwn s.entry_ids)) (sym empty) tt) in
      let ids = (run cs s).entry_ids in
      let first = Has-IsOwn ids (cron.entries (run cs s).jobs) (i, backs_up d) one all in
      let second = Has-IsOwn ids (cron.entries (run cs s).jobs) (j, backs_up e) two all in
      let named : entry_id d.id ids ≡ entry_id e.id ids = ap (λ n. entry_id n ids) same in cc
