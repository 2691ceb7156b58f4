-- ===== src/Commands/Prepare.antt =====
-- The start of `runBackup` in cmd/marmot/cmd/backup.go and of `runStart` in cmd/marmot/cmd/start.go: the parts
-- from which the agent is made, in order.
pub mod Made
use marmot_cli.Common.{Bool, Option, none, some, Bytes, Result, ok, err, ◌>>=◌, if◌then◌else◌}
use marmot_cli.Files.{Disk}
use marmot_cli.Storage.Local.{LocalStorage, LocalError, new_local_storage}
use marmot_cli.Storage.Queue.Open.{Probe, OpenError, Connection, new_sqlite_queue}
use marmot_cli.S3.Settings.{S3Provider}
use marmot_cli.Crypto.{CryptoError, AesEncryptor}
use marmot_cli.Config.{Config, Invalid, is_s3, validate}
use marmot_cli.Remote.{Storage, RemoteError, new_storage_with_context}
use marmot_cli.Agent.{Agent}
use marmot_cli.Agent.Upload.{map_err}
use marmot_cli.Commands.{encryptor_of}

pub data PrepareError : Type 0 where
  load_failed : Bytes → PrepareError
  invalid_config : Invalid → PrepareError
  storage_failed : LocalError → PrepareError
  queue_failed : OpenError → PrepareError
  remote_failed : RemoteError → PrepareError
  key_failed : CryptoError → PrepareError

-- What the calls of the system find.
pub record PrepareFaults : Type 0 where
  pub mkdir : Option Bytes
  pub probe : Probe
  pub aws : Option Bytes
  pub read_key : Bytes

-- The agent, and how its queue was opened.
pub record Parts : Type 0 where
  pub agent : Agent
  pub connection : Connection

-- `cfg.Validate()` as a step: the configuration goes on with its defaults.
valid : Config → Result PrepareError Config
valid cfg = let (c, r) = validate cfg in map_err invalid_config r >>= λ done. ok c

cloud_part : Config × Result RemoteError Storage → Result PrepareError (Config × Option S3Provider)
cloud_part (c, err e) = err (remote_failed e)
cloud_part (c, ok s) = ok (c, some s.provider)

remote_part : Option Bytes → Config → Result PrepareError (Config × Option S3Provider)
unfolding cloud_part
remote_part aws cfg =
    if is_s3 cfg then cloud_part (new_storage_with_context aws cfg) else ok (cfg, none)

unfoldable pub prepare : PrepareFaults → Disk → Config → Result PrepareError Parts
unfolding valid remote_part
prepare f disk cfg = do
  c ← valid cfg
  storage ← map_err storage_failed (new_local_storage f.mkdir c.paths.backups_dir)
  connection ← map_err queue_failed (new_sqlite_queue f.probe)
  (c', remote) ← remote_part f.aws c
  e ← map_err key_failed (encryptor_of f.read_key c'.paths.key_file disk)
  ok (record {
    agent = record { config = c'; storage = storage; remote = remote; encryptor = e };
    connection = connection;
  })
