-- ===== src/Agent/Retry/Uploads/Accounted.antt =====
-- No queued backup is lost, however backups and uploads interleave.
use marmot_cli.Common.{
  ◌≡◌, inl, inr, sym, subst, Bool, true, false, ◌||◌, List, [], ◌∷◌, ◌++◌, map, Option, none, some,
  arith, Bytes, Result, ok, err, text_eq, text_eq_iff, text_eq_refl, All, All-append, Bool-cases,
}
use marmot_cli.Storage.{Time, BackupFile}
use marmot_cli.Storage.Queue.{Table, Fault, enqueue, increment_retry, remove}
use marmot_cli.Storage.Queue.Names.{
  has_row, has_row-enqueue, has_row-increment_retry, has_row-remove,
}
use marmot_cli.S3.Client.{BackupMetadata}
use marmot_cli.Config.{DatabaseConfig}
use marmot_cli.Agent.{Setup, Agent, World, AgentError, UploadError}
use marmot_cli.Agent.Upload.{SendFaults, is_panic, send, settle}
use marmot_cli.Agent.Upload.Kept.{send_table}
use marmot_cli.Agent.Backup.Queued.{IsQueued, backup-IsQueued}
use marmot_cli.Agent.Retry.Uploads.{
  Flight, loading, sent, Daemon, started_flight, with_queued, with_uploaded, flight_of, Step,
  backs_up, retries_uploads, sends, settles, Steps, done, step,
}

-- A name of the list.
unfoldable pub has_name : Bytes → List Bytes → Bool
has_name name [] = false
has_name name (n ∷ ns) = text_eq n name || has_name name ns

abbrev pub IsSafe : Table → List Bytes → Bytes → Type 0
IsSafe t uploaded name = (has_row name t.rows || has_name name uploaded) ≡ true

-- A goroutine that sent its file with success knows that the name is uploaded.
abbrev IsTrue : List Bytes → Flight → Type 0
IsTrue uploaded (loading b db) = Unit
IsTrue uploaded (sent b (err e)) = Unit
IsTrue uploaded (sent b (ok m)) = has_name b.name uploaded ≡ true

-- No backup is lost: every name that was queued still has its row or was uploaded.
pub record IsAccounted {setup : Setup} (d : Daemon setup) : Type 0 where
  pub safe : All (IsSafe d.world.table d.uploaded) d.queued
  pub true_flights : All (IsTrue d.uploaded) d.flights

All-map {ℓ κ μ} :
    {A : Type ℓ} (P : A → Type κ) (Q : A → Type μ) (xs : List A)
    → ((x : A) → P x → Q x)
    → All P xs
    → All Q xs
All-map P Q [] f h = tt
All-map P Q (x ∷ xs) f (hx, h) = (f x hx, All-map P Q xs f h)

All-middle {ℓ κ} :
    {A : Type ℓ} (P : A → Type κ) (front : List A) (x : A) (back : List A)
    → All P (front ++ (x ∷ back))
    → All P front × (P x × All P back)
All-middle P [] x back h = (tt, h)
All-middle P (y ∷ front) x back h =
    let (before, (at, after)) = All-middle P front x back h.1 in ((h.0, before), (at, after))

has_name-with_uploaded :
    (name other : Bytes) (r : Result UploadError BackupMetadata) (ns : List Bytes)
    → has_name name ns ≡ true
    → has_name name (with_uploaded other r ns) ≡ true
unfolding has_name
has_name-with_uploaded name other (err e) ns h = h
has_name-with_uploaded name other (ok m) ns h = ground arith

IsTrue-with_uploaded :
    (other : Bytes) (r : Result UploadError BackupMetadata) (ns : List Bytes) (f : Flight)
    → IsTrue ns f
    → IsTrue (with_uploaded other r ns) f
IsTrue-with_uploaded other r ns (loading b db) h = tt
IsTrue-with_uploaded other r ns (sent b (err e)) h = tt
IsTrue-with_uploaded other r ns (sent b (ok m)) h = has_name-with_uploaded b.name other r ns h

IsTrue-sent :
    (b : BackupFile) (r : Result UploadError BackupMetadata) (ns : List Bytes)
    → IsTrue (with_uploaded b.name r ns) (sent b r)
unfolding has_name
IsTrue-sent b (err e) ns = tt
IsTrue-sent b (ok m) ns = ground (arith, text_eq_refl b.name)

loading-IsTrue :
    (ns : List Bytes) (uploads : List (BackupFile × DatabaseConfig))
    → All (IsTrue ns) (map flight_of uploads)
loading-IsTrue ns [] = tt
loading-IsTrue ns ((b, db) ∷ uploads) = (tt, loading-IsTrue ns uploads)

-- What each step does to one queued name.
IsSafe-enqueue :
    (name : Bytes) (b : BackupFile) (t : Table) (ns : List Bytes)
    → IsSafe t ns name
    → IsSafe (enqueue none b t).0 ns name
IsSafe-enqueue name b t ns h = ground (arith, has_row-enqueue name b t)

IsSafe-new : (b : BackupFile) (t : Table) (ns : List Bytes) → IsSafe (enqueue none b t).0 ns b.name
IsSafe-new b t ns = ground (arith, has_row-enqueue b.name b t, text_eq_refl b.name)

IsSafe-remove :
    (f : Fault) (name gone : Bytes) (t : Table) (ns : List Bytes)
    → has_name gone ns ≡ true
    → IsSafe t ns name
    → IsSafe (remove f gone t).0 ns name
IsSafe-remove f name gone t ns known h = elim (Bool-cases (text_eq gone name)) [
  | inl same ↦ let gone_name : gone ≡ name = (text_eq_iff gone name).0 same in ground arith
  | inr other ↦ ground (arith, has_row-remove f name gone t other)
]

IsSafe-increment :
    (f : Fault) (name at message : Bytes) (now : Time) (t : Table) (ns : List Bytes)
    → IsSafe t ns name
    → IsSafe (increment_retry f at message now t).0 ns name
IsSafe-increment f name at message now t ns h =
    ground (arith, has_row-increment_retry f name at message now t)

IsSafe-uploaded :
    (name other : Bytes) (r : Result UploadError BackupMetadata) (t : Table) (ns : List Bytes)
    → IsSafe t ns name
    → IsSafe t (with_uploaded other r ns) name
IsSafe-uploaded name other (err e) t ns h = h
IsSafe-uploaded name other (ok m) t ns h = unfold has_name in ground arith

IsSafe-backup :
    (was now : Table) (r : Result AgentError (Option BackupFile)) (ns queued : List Bytes)
    → IsQueued was now r
    → All (IsSafe was ns) queued
    → All (IsSafe now ns) (with_queued r queued)
IsSafe-backup was now (err e) ns queued k h = subst (λ t. All (IsSafe t ns) queued) (sym k) h
IsSafe-backup was now (ok none) ns queued k h = subst (λ t. All (IsSafe t ns) queued) (sym k) h
IsSafe-backup was now (ok (some b)) ns queued k h =
    subst (λ t. All (IsSafe t ns) (b.name ∷ queued)) (sym k)
      (
        IsSafe-new b was ns,
        All-map (IsSafe was ns) (IsSafe (enqueue none b was).0 ns) queued
            (λ n. IsSafe-enqueue n b was ns) h,
      )

started-IsTrue :
    (db : DatabaseConfig) (r : Result AgentError (Option BackupFile)) (ns : List Bytes)
    (fs : List Flight)
    → All (IsTrue ns) fs
    → All (IsTrue ns) (started_flight db r fs)
started-IsTrue db (err e) ns fs h = h
started-IsTrue db (ok none) ns fs h = h
started-IsTrue db (ok (some b)) ns fs h = (tt, h)

module _ (setup : Setup) (a : Agent) where
  IsSafe-settle :
      (f : SendFaults) (b : BackupFile) (w : World setup) (r : Result UploadError BackupMetadata)
      (ns queued : List Bytes)
      → IsTrue ns (sent b r)
      → All (IsSafe w.table ns) queued
      → All (IsSafe (settle setup a f b w r).table ns) queued
  unfolding settle
  IsSafe-settle f b w (err e) ns queued known h = elim (Bool-cases (is_panic e)) [
    | inl panics ↦ rw panics h
    | inr fails ↦ rw fails (
        All-map (IsSafe w.table ns) _ queued
          (λ n. IsSafe-increment f.increment n b.name (setup.error_text e) f.now w.table ns) h)
  ]
  IsSafe-settle f b w (ok m) ns queued known h =
      All-map (IsSafe w.table ns) _ queued (λ n. IsSafe-remove f.unqueue n b.name w.table ns known)
        h

  Step-IsAccounted : {d e : Daemon setup} → Step setup a d e → IsAccounted d → IsAccounted e
  Step-IsAccounted {d} (backs_up db f g unix created) k = record {
    safe =
        IsSafe-backup d.world.table _ _ d.uploaded d.queued
          (backup-IsQueued setup a db f g unix created d.world) k.safe;
    true_flights = started-IsTrue db _ d.uploaded d.flights k.true_flights;
  }
  Step-IsAccounted {d} (retries_uploads query scan now uploads h) k = record {
    safe = k.safe;
    true_flights =
        All-append (IsTrue d.uploaded) (map flight_of uploads) d.flights
          (loading-IsTrue d.uploaded uploads) k.true_flights;
  }
  Step-IsAccounted {d} (sends f front b db back h) k =
      let r = (send setup a f db b d.world).1 in
      let more = with_uploaded b.name r d.uploaded in
      let (before, (at, after)) =
        All-middle (IsTrue d.uploaded) front (loading b db) back
          (subst (All (IsTrue d.uploaded)) h k.true_flights) in
      let grow : (fs : List Flight) → All (IsTrue d.uploaded) fs → All (IsTrue more) fs = λ fs.
        All-map (IsTrue d.uploaded) (IsTrue more) fs (IsTrue-with_uploaded b.name r d.uploaded) in
      record {
        safe =
            subst (λ t. All (IsSafe t more) d.queued) (sym (send_table setup a f db b d.world))
              (All-map (IsSafe d.world.table d.uploaded) (IsSafe d.world.table more) d.queued
                (λ n. IsSafe-uploaded n b.name r d.world.table d.uploaded) k.safe);
        true_flights =
            All-append (IsTrue more) front (sent b r ∷ back) (grow front before)
              (IsTrue-sent b r d.uploaded, grow back after);
      }
  Step-IsAccounted {d} (settles f front b r back h) k =
      let (before, (at, after)) =
        All-middle (IsTrue d.uploaded) front (sent b r) back
          (subst (All (IsTrue d.uploaded)) h k.true_flights) in
      record {
        safe = IsSafe-settle f b d.world r d.uploaded d.queued at k.safe;
        true_flights = All-append (IsTrue d.uploaded) front back before after;
      }

  -- However scheduled backups, retries and the goroutines that upload interleave, and whichever of their
  -- calls fail, no queued backup is lost: if every queued name had its row in the queue or was uploaded
  -- before, and the goroutines that report success have uploaded, so it is afterwards.
  pub steps-IsAccounted : {d e : Daemon setup} → Steps setup a d e → IsAccounted d → IsAccounted e
  steps-IsAccounted done k = k
  steps-IsAccounted (step s ss) k = steps-IsAccounted ss (Step-IsAccounted s k)
