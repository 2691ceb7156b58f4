-- ===== src/Agent/Retry/Uploads.antt =====
-- The daemon's backups and uploads as they interleave. A scheduled backup and a retry start goroutines that
-- run `uploadBackup`; each of these first loads and sends the file, and later settles the queue. Any
-- goroutine may take the next step.
pub mod Accounted
use marmot_cli.Common.{
  ℕ, ◌≡◌, ◌⊎◌, inl, inr, refl, sym, ap, ◌∙◌, subst, Bool, true, false, ◌||◌, List, [], ◌∷◌, ◌++◌,
  map, Option, none, some, arith, Bytes, Result, ok, err, text_eq, text_eq_iff, text_eq_refl, All,
  All-append, Bool-cases, if◌then◌else◌,
}
use marmot_cli.Storage.{Time, BackupFile}
use marmot_cli.Storage.Queue.{Table, Fault, enqueue, increment_retry, remove}
use marmot_cli.S3.Client.{BackupMetadata}
use marmot_cli.Config.{DatabaseConfig}
use marmot_cli.Agent.{Setup, Agent, World, AgentError, UploadError}
use marmot_cli.Agent.Backup.{BackupFaults, backup}
use marmot_cli.Agent.Upload.{SendFaults, send, settle}
use marmot_cli.Agent.Retry.{retry_failed_uploads}

-- A goroutine that runs `uploadBackup`: before the upload, and after it with its outcome.
pub data Flight : Type 0 where
  loading : BackupFile → DatabaseConfig → Flight
  sent : BackupFile → Result UploadError BackupMetadata → Flight

-- The world, the goroutines, and for the account of it the names that were queued and those that were
-- uploaded.
pub record Daemon (setup : Setup) : Type 0 where
  pub world : World setup
  pub flights : List Flight
  pub queued : List Bytes
  pub uploaded : List Bytes

abbrev pub started_flight :
    DatabaseConfig → Result AgentError (Option BackupFile) → List Flight → List Flight
started_flight db (err e) fs = fs
started_flight db (ok none) fs = fs
started_flight db (ok (some b)) fs = loading b db ∷ fs

abbrev pub with_queued : Result AgentError (Option BackupFile) → List Bytes → List Bytes
with_queued (err e) ns = ns
with_queued (ok none) ns = ns
with_queued (ok (some b)) ns = b.name ∷ ns

abbrev pub with_uploaded : Bytes → Result UploadError BackupMetadata → List Bytes → List Bytes
with_uploaded name (err e) ns = ns
with_uploaded name (ok m) ns = name ∷ ns

abbrev pub flight_of : BackupFile × DatabaseConfig → Flight
flight_of (b, db) = loading b db

module _ (setup : Setup) (a : Agent) where
  -- The daemon after a scheduled backup.
  abbrev pub after_backup :
      DatabaseConfig → BackupFaults → SendFaults → ℕ → Time → Daemon setup → Daemon setup
  after_backup db f g unix created d =
      let (w, r) = backup setup a db false f g unix created d.world in
      record {
        world = w;
        flights = started_flight db r d.flights;
        queued = with_queued r d.queued;
        uploaded = d.uploaded;
      }

  abbrev pub after_send :
      SendFaults
      → List Flight
      → BackupFile
      → DatabaseConfig
      → List Flight
      → Daemon setup
      → Daemon setup
  after_send f front b db back d =
      let (w, r) = send setup a f db b d.world in
      record d {
        world = w;
        flights = front ++ (sent b r ∷ back);
        uploaded = with_uploaded b.name r d.uploaded;
      }

  abbrev pub after_settle :
      SendFaults
      → List Flight
      → BackupFile
      → Result UploadError BackupMetadata
      → List Flight
      → Daemon setup
      → Daemon setup
  after_settle f front b r back d = record d {
    world = settle setup a f b d.world r;
    flights = front ++ back;
  }

  pub data Step : Daemon setup → Daemon setup → Type 0 where
    backs_up :
        {d : Daemon setup} (db : DatabaseConfig) (f : BackupFaults) (g : SendFaults) (unix : ℕ)
        (created : Time)
        → Step d (after_backup db f g unix created d)
    retries_uploads :
        {d : Daemon setup} (query scan : Fault) (now : Time)
        (uploads : List (BackupFile × DatabaseConfig))
        → retry_failed_uploads a.config query scan now d.world.table ≡ ok uploads
        → Step d (record d { flights = map flight_of uploads ++ d.flights })
    sends :
        {d : Daemon setup} (f : SendFaults) (front : List Flight) (b : BackupFile)
        (db : DatabaseConfig) (back : List Flight)
        → d.flights ≡ front ++ (loading b db ∷ back)
        → Step d (after_send f front b db back d)
    settles :
        {d : Daemon setup} (f : SendFaults) (front : List Flight) (b : BackupFile)
        (r : Result UploadError BackupMetadata) (back : List Flight)
        → d.flights ≡ front ++ (sent b r ∷ back)
        → Step d (after_settle f front b r back d)

  pub data Steps : Daemon setup → Daemon setup → Type 0 where
    done : {d : Daemon setup} → Steps d d
    step : {d e g : Daemon setup} → Step d e → Steps e g → Steps d g
