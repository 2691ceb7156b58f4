-- ===== src/Commands/Prepare/Made.antt =====
-- What the parts have that `runBackup` and `runStart` make.
use marmot_cli.Common.{
  ◌≡◌, sym, ◌∙◌, ap, subst, Bool-cases, inl, inr, true, false, Option, none, some, arith, Bytes,
  Result, ok, err, >>=-eq-ok, >>=-leads, length,
}
use marmot_cli.Files.{Disk}
use marmot_cli.Storage.Local.{new_local_storage}
use marmot_cli.Storage.Queue.Open.{new_sqlite_queue}
use marmot_cli.S3.Settings.{S3Provider}
use marmot_cli.Config.{Config, is_s3, validate}
use marmot_cli.Remote.{Storage, RemoteError, new_storage_with_context}
use marmot_cli.Agent.Upload.{map_err, map_err-eq-ok}
use marmot_cli.Commands.{encryptor_of, encryptor_of-length}
use marmot_cli.Commands.Prepare.{
  PrepareFaults, PrepareError, Parts, prepare, valid, cloud_part, remote_part, invalid_config,
  storage_failed, queue_failed, key_failed,
}

validate-storage_type : (c : Config) → (validate c).0.storage_type ≡ c.storage_type
unfolding validate
validate-storage_type c = ground arith

valid-storage_type : (c : Config) {v : Config} → valid c ≡ ok v → v.storage_type ≡ c.storage_type
unfolding valid
valid-storage_type c {v} h =
    let (done, checks, same) =
      >>=-eq-ok (map_err invalid_config (validate c).1) (λ d. ok (validate c).0) h in
    let here : (validate c).0 ≡ v = cc in
    ap (λ k. k.storage_type) (sym here) ∙ validate-storage_type c

new_storage-storage_type :
    (aws : Option Bytes) (c : Config)
    → (new_storage_with_context aws c).0.storage_type ≡ c.storage_type
unfolding new_storage_with_context
new_storage-storage_type aws c = ground arith

-- There is a remote storage exactly for the storage type `s3`.
abbrev RemoteFits : Config → Option S3Provider → Type 0
RemoteFits c none = is_s3 c ≡ false
RemoteFits c (some p) = is_s3 c ≡ true

cloud_part_lem :
    (p : Config × Result RemoteError Storage) {c' : Config} {r : Option S3Provider}
    → cloud_part p ≡ ok (c', r)
    → (p.0 ≡ c') × (s : Storage) × (r ≡ some s.provider)
unfolding cloud_part
cloud_part_lem (c, err e) h = absurd (cc)
cloud_part_lem (c, ok s) h = (cc, s, cc)

remote_part_lem :
    (aws : Option Bytes) (c : Config) {c' : Config} {r : Option S3Provider}
    → remote_part aws c ≡ ok (c', r)
    → (c'.storage_type ≡ c.storage_type) × RemoteFits c' r
unfolding remote_part
remote_part_lem aws c {c'} {r} h = elim (Bool-cases (is_s3 c)) [
  | inl e ↦
      let (same, s, here) = cloud_part_lem (new_storage_with_context aws c) (rw e at h) in
      let kept : c'.storage_type ≡ c.storage_type =
        ap (λ k. k.storage_type) (sym same) ∙ new_storage-storage_type aws c in
      (kept, subst (RemoteFits c') (sym here) (rw kept e))
  | inr e ↦
      let local : Path (Result PrepareError (Config × Option S3Provider)) (ok (c, none))
          (ok (c', r)) =
        rw e at h in
      let same : c ≡ c' = cc in
      let nothing : none ≡ r = cc in
      (
        ap (λ k. k.storage_type) (sym same),
        subst (RemoteFits c') nothing (subst (λ k. is_s3 k ≡ false) same e),
      )
]

-- What the parts have, for the configuration that was loaded.
pub record IsMade (f : PrepareFaults) (cfg : Config) (p : Parts) : Type 0 where
  pub kind : p.agent.config.storage_type ≡ cfg.storage_type
  pub remote : RemoteFits p.agent.config p.agent.remote
  pub keyed : length p.agent.encryptor.key ≡ 32
  pub queue : new_sqlite_queue f.probe ≡ ok p.connection

-- Where the parts are made, the agent has the storage type of the configuration that was loaded, and a remote
-- storage exactly for the type `s3`; its encryptor has a key of 32 bytes; and the queue is opened as
-- `NewSQLiteQueue` opens it.
pub prepare-IsMade :
    (f : PrepareFaults) (disk : Disk) (cfg : Config) {p : Parts}
    → prepare f disk cfg ≡ ok p
    → IsMade f cfg p
unfolding prepare
prepare-IsMade f disk cfg {p} h = >>=-leads (valid cfg) _ h λ c is_valid h.
    >>=-leads (map_err storage_failed (new_local_storage f.mkdir c.paths.backups_dir)) _ h
      λ storage has_storage h.
        >>=-leads (map_err queue_failed (new_sqlite_queue f.probe)) _ h λ connection opened h.
          >>=-leads (remote_part f.aws c) _ h λ pair has_remote h.
            >>=-leads (map_err key_failed (encryptor_of f.read_key pair.0.paths.key_file disk)) _ h
              λ e loaded h.
                let (kind, fits) = remote_part_lem f.aws c has_remote in
                let made : Parts = record {
                  agent = record {
                    config = pair.0;
                    storage = storage;
                    remote = pair.1;
                    encryptor = e;
                  };
                  connection = connection;
                } in
                let same : made ≡ p = cc in
                subst (IsMade f cfg) same (record {
                  kind = kind ∙ valid-storage_type cfg is_valid;
                  remote = fits;
                  keyed = encryptor_of-length f.read_key pair.0.paths.key_file disk (
                      map_err-eq-ok key_failed (encryptor_of f.read_key pair.0.paths.key_file disk)
                        loaded);
                  queue = map_err-eq-ok queue_failed (new_sqlite_queue f.probe) opened;
                })
