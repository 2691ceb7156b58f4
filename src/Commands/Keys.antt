-- ===== src/Commands/Keys.antt =====
-- `marmot key export` and `marmot key import` of cmd/marmot/cmd/key.go, and `marmot queue clear` and
-- `marmot queue list` of cmd/marmot/cmd/queue.go.
pub mod Moved
use marmot_cli.Common.{ℕ, List, Option, none, some, Bytes, Result, ok, err, ◌>>=◌, ◌>>◌}
use marmot_cli.Files.{Disk}
use marmot_cli.Storage.{BackupFile}
use marmot_cli.Storage.Queue.{Fault, Table, QueueError, clear, list}
use marmot_cli.Storage.Queue.Open.{Probe, OpenError, Connection, Driver, new_sqlite_queue}
use marmot_cli.Crypto.{
  Base64, CryptoError, AesEncryptor, new_aes_encryptor, export_key_as_base64, load_key, WriteFault,
  save_key_to_file,
}
use marmot_cli.Config.{Paths}
use marmot_cli.Config.Databases.{ConfigFiles, load_config}
use marmot_cli.Agent.Upload.{map_err}
use marmot_cli.Agent.Backup.{unless}
use marmot_cli.Commands.{split_path, encryptor_of}
use marmot_cli.PidFile.{trim_space}

pub data KeyError : Type 0 where
  load_failed export_failed invalid_key save_failed : CryptoError → KeyError
  bad_base64 : KeyError
  mkdir_failed : Bytes → KeyError

-- The text that is printed. The paths are the default ones.
unfoldable pub key_export : Base64 → Bytes → Paths → Disk → Result KeyError Bytes
key_export b fault paths disk = do
  e ← map_err load_failed (encryptor_of fault paths.key_file disk)
  map_err export_failed (export_key_as_base64 b e)

decoded : Option Bytes → Result KeyError Bytes
decoded none = err bad_base64
decoded (some key) = ok key

loaded : AesEncryptor × Result CryptoError (Unit {0}) → Result KeyError AesEncryptor
loaded (e, r) = map_err invalid_key r >> ok e

imported : Base64 → Option Bytes → Bytes → Result KeyError AesEncryptor
unfolding decoded loaded
imported b mkdir text = do
  key ← decoded (b.decode (trim_space text))
  unless mkdir_failed mkdir
  loaded (load_key key new_aes_encryptor)

saved : WriteFault → Paths → ℕ → Disk → AesEncryptor → Disk × Result KeyError (Unit {0})
saved write paths now disk e =
    let (dir, name) = split_path paths.key_file in
    let (disk', r) = save_key_to_file write dir name now e disk in (disk', map_err save_failed r)

unfoldable pub key_import :
    Base64
    → Option Bytes
    → WriteFault
    → Paths
    → Bytes
    → ℕ
    → Disk
    → Disk × Result KeyError (Unit {0})
unfolding imported saved
key_import b mkdir write paths text now disk = elim (imported b mkdir text) [
  | err e ↦ (disk, err e)
  | ok e ↦ saved write paths now disk e
]

pub data QueueCommandError : Type 0 where
  config_failed : Bytes → QueueCommandError
  open_failed : OpenError → QueueCommandError
  clear_failed list_failed : QueueError → QueueCommandError

opened : Probe → Paths → Bytes → ConfigFiles → Result QueueCommandError Connection
opened p paths path files = do
  cfg ← map_err config_failed (load_config paths path files)
  map_err open_failed (new_sqlite_queue p)

unfoldable pub queue_clear :
    Driver
    → Probe
    → Fault
    → Paths
    → Bytes
    → ConfigFiles
    → Table
    → Table × Result QueueCommandError (Unit {0})
unfolding opened
queue_clear d p fault paths path files t = elim (opened p paths path files) [
  | err e ↦ (t, err e)
  | ok c ↦ let (t', r) = clear (d.write c fault) t in (t', map_err clear_failed r)
]

-- The rows that are printed, oldest first.
unfoldable pub queue_list :
    Probe
    → Fault
    → Fault
    → Paths
    → Bytes
    → ConfigFiles
    → Table
    → Result QueueCommandError (List BackupFile)
unfolding opened
queue_list p query scan paths path files t =
    opened p paths path files >>= λ c. map_err list_failed (list query scan t)
