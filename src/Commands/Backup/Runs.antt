-- ===== src/Commands/Backup/Runs.antt =====
-- Whom `marmot backup` serves, and when no backup can be queued.
use marmot_cli.Common.{
  ℕ, suc, ◌≡◌, ◌≢◌, refl, sym, ap, ◌∙◌, subst, Bool, false, List, [], ◌∷◌, Option, Bytes, Result,
  ok, err, >>=-leads,
}
use marmot_cli.Files.{Disk}
use marmot_cli.Storage.{BackupFile}
use marmot_cli.Storage.Queue.Open.{Connection, query_only, Driver}
use marmot_cli.Config.{Config, DatabaseConfig, Paths, is_local}
use marmot_cli.Agent.{Setup, World, AgentError}
use marmot_cli.Agent.Backup.Refused.{backup-IsRefused}
use marmot_cli.Commands.Prepare.{PrepareFaults, Parts, prepare, load_failed}
use marmot_cli.Commands.Prepare.Made.{IsMade, prepare-IsMade}
use marmot_cli.Config.Databases.{ConfigFiles, load_config}
use marmot_cli.Agent.Upload.{map_err, map_err-eq-ok}
use marmot_cli.Storage.Queue.Open.{OpenError}
use marmot_cli.Storage.Queue.Open.Modes.{IsUserQueue, new_sqlite_queue-query_only}
use marmot_cli.Commands.Backup.{
  Happening, Failures, through, note_failure, backup_one, backup_all, BackupError, backed_up,
  run_backup, plan, chosen, prepare_failed,
}

abbrev ids : List DatabaseConfig → List Bytes
ids [] = []
ids (db ∷ dbs) = db.id ∷ ids dbs

abbrev failed_ids : Failures → List Bytes
failed_ids [] = []
failed_ids ((id, e) ∷ fs) = id ∷ failed_ids fs

note_failure-failed {ℓ} :
    {A : Type ℓ} (id : Bytes) (r : Result AgentError A) (fs : Failures)
    → ((x : A) → r ≢ ok x)
    → failed_ids (note_failure id r fs) ≡ id ∷ failed_ids fs
unfolding note_failure
note_failure-failed id (err e) fs never = refl
note_failure-failed id (ok x) fs never = absurd (never x refl)

module _ (setup : Setup) (d : Driver) (happens : ℕ → Happening) (p : Parts)
    (cloud : is_local p.agent.config ≡ false) (reads : p.connection ≡ query_only) where
  backup_one-refused :
      (i : ℕ) (db : DatabaseConfig) (w : World setup)
      → let (w', r) = backup_one setup d happens p i db w in
        (w'.table ≡ w.table) × (w'.bucket ≡ w.bucket) × ((x : Option BackupFile) → r ≢ ok x)
  unfolding backup_one
  backup_one-refused i db w =
      let (e, refuses) = d.refuses (happens i).faults.enqueue in
      backup-IsRefused setup p.agent (through setup d happens p.connection (happens i).faults) cloud
        e (rw reads refuses) _ (happens i).send db (happens i).unix (happens i).created w

  -- Each backup fails, and is reported, in order.
  pub backup_all-refused :
      (i : ℕ) (dbs : List DatabaseConfig) (w : World setup)
      → let (last, failures) = backup_all setup d happens p i dbs w in
        (last.table ≡ w.table) × (last.bucket ≡ w.bucket) × (failed_ids failures ≡ ids dbs)
  unfolding backup_all
  backup_all-refused i [] w = (refl, refl, refl)
  backup_all-refused i (db ∷ dbs) w =
      let (w', r) = backup_one setup d happens p i db w in
      let (same, untouched, never) = backup_one-refused i db w in
      let (table, bucket, failed) = backup_all-refused (suc i) dbs w' in
      (
        table ∙ same,
        bucket ∙ untouched,
        note_failure-failed db.id r _ never ∙ ap (◌∷◌ db.id) failed,
      )

IsUntouched : {setup : Setup} → World setup → World setup → Type 0
IsUntouched w w' = (w'.table ≡ w.table) × (w'.bucket ≡ w.bucket)

backed_up-refused :
    (setup : Setup) (d : Driver) (happens : ℕ → Happening) (w : World setup)
    (r : Result BackupError (Parts × List DatabaseConfig))
    → ((p : Parts) (dbs : List DatabaseConfig)
        → r ≡ ok (p, dbs)
        → (is_local p.agent.config ≡ false) × (p.connection ≡ query_only))
    → IsUntouched w (backed_up setup d happens w r).0
unfolding backed_up IsUntouched
backed_up-refused setup d happens w (err e) facts = (refl, refl)
backed_up-refused setup d happens w (ok (p, dbs)) facts =
    let (cloud, reads) = facts p dbs refl in
    let (table, bucket, failed) = backup_all-refused setup d happens p cloud reads 0 dbs w in
    (table, bucket)

plan_lem :
    (f : PrepareFaults) (paths : Paths) (path : Bytes) (files : ConfigFiles) (all : Bool)
    (id : Bytes) (disk : Disk) {p : Parts} {dbs : List DatabaseConfig}
    → plan f paths path files all id disk ≡ ok (p, dbs)
    → (cfg : Config) × (load_config paths path files ≡ ok cfg) × IsMade f cfg p
unfolding plan
plan_lem f paths path files all id disk {p} {dbs} h =
    >>=-leads (map_err (λ e. prepare_failed (load_failed e)) (load_config paths path files)) _ h
      λ cfg loaded h. >>=-leads (map_err prepare_failed (prepare f disk cfg)) _ h λ p' prepared h.
        >>=-leads (chosen all id p'.agent.config) _ h λ dbs' picked h.
          let made =
            prepare-IsMade f disk cfg
              (map_err-eq-ok prepare_failed (prepare f disk cfg) prepared) in
          let same : p' ≡ p = cc in
          (
            cfg,
            map_err-eq-ok (λ e. prepare_failed (load_failed e)) (load_config paths path files)
                loaded,
            subst (IsMade f cfg) same made,
          )

-- Run by a user other than root who finds the file of the queue and can read it, where the first connection to
-- it opens and answers, and for a configuration that is not local, the command queues no backup and uploads
-- none: the queue and the bucket stay as they are, however it ends.
pub run_backup-refused :
    (setup : Setup) (d : Driver) (happens : ℕ → Happening) (f : PrepareFaults) (paths : Paths)
    (path : Bytes) (files : ConfigFiles) (all : Bool) (id : Bytes) (w : World setup)
    → IsUserQueue f.probe
    → ((cfg : Config) → load_config paths path files ≡ ok cfg → is_local cfg ≡ false)
    → let (w', r) = run_backup setup d happens f paths path files all id w in
      (w'.table ≡ w.table) × (w'.bucket ≡ w.bucket)
unfolding run_backup IsUntouched
run_backup-refused setup d happens f paths path files all id w user cloud =
    backed_up-refused setup d happens w (plan f paths path files all id w.disk) λ p dbs h.
      let (cfg, loaded, made) = plan_lem f paths path files all id w.disk h in
      let opened = new_sqlite_queue-query_only f.probe user in
      let reads : Path (Result OpenError Connection) (ok query_only) (ok p.connection) =
        sym opened ∙ made.queue in
      (rw made.kind (cloud cfg loaded), cc)
