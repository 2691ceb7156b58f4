-- ===== src/Agent/Restore.antt =====
-- `Restore`, `RestoreFromFile`, `restoreFromEncryptedReader` and `restoreToDatabase` of
-- internal/agent/agent.go, with `Decompress` of internal/backup/compressor.go.
pub mod RoundTrip
pub mod Sealed
use marmot_cli.Common.{
  Bool, true, false, List, [], ◌∷◌, Option, none, some, Bytes, codes, Result, ok, err, ◌>>=◌, ◌>>◌,
  if◌then◌else◌,
}
use marmot_cli.Files.{File, Disk, find_file}
use marmot_cli.Streams.{Reader, Writer, reader, fresh}
use marmot_cli.S3.Client.{S3Error, download}
use marmot_cli.Crypto.{CryptoError, decrypt}
use marmot_cli.Config.{DatabaseConfig}
use marmot_cli.Agent.{Gzip, Setup, Agent, World, AgentError}
use marmot_cli.Agent.Programs.{Command, restore_command}
use marmot_cli.Agent.Backup.{unless}
use marmot_cli.Agent.Upload.{map_err}
use marmot_cli.Agent

pub record RestoreFaults : Type 0 where
  pub download_temp : Option Bytes
  pub download_writes : List (Option Bytes)
  pub download_seek : Option Bytes
  pub open_file : Bytes
  pub plain_temp : Option Bytes
  pub plain_writes : List (Option Bytes)
  pub plain_seek : Option Bytes
  pub dump_temp : Option Bytes
  pub dump_copy : Option Bytes
  pub dump_seek : Option Bytes

-- `Decompress` of a file into an empty one.
unfoldable pub decompress : Gzip → Option Bytes → Bytes → Result Bytes Bytes
decompress g copy zipped = do dump ← g.unzip zipped; unless (λ e. e) copy; ok dump

module _ (setup : Setup) (a : Agent) where
  pub decrypted_file : RestoreFaults → Reader → Result CryptoError Bytes
  decrypted_file f r =
      let (w, d) =
        decrypt setup.gcm a.encryptor r (record { written = []; faults = f.plain_writes }) in
      d >> ok w.written

  -- The dump that an encrypted file holds.
  unfoldable pub opened : RestoreFaults → Reader → Result AgentError Bytes
  unfolding decrypted_file
  opened f r = do
    unless Agent.temp_failed f.plain_temp
    zipped ← map_err Agent.decrypt_failed (decrypted_file f r)
    unless Agent.seek_failed f.plain_seek
    unless Agent.temp_failed f.dump_temp
    dump ← map_err Agent.decompress_failed (decompress setup.gzip f.dump_copy zipped)
    unless Agent.seek_failed f.dump_seek
    ok dump

  done_of : Result Bytes Bytes → Result AgentError (Unit {0})
  done_of (err e) = err (Agent.restore_failed e)
  done_of (ok out) = ok tt

  -- The dump is the standard input of the program.
  unfoldable pub restore_to_database :
      DatabaseConfig → Bytes → World setup → World setup × Result AgentError (Unit {0})
  unfolding done_of
  restore_to_database db dump w = elim (restore_command db) [
    | none ↦ (w, err (Agent.unsupported_type db.type))
    | some c ↦
        let (s, out) = setup.programs.run c dump w.databases in
        (record w { databases = s }, done_of out)
  ]

  unfoldable pub restore_opened :
      DatabaseConfig
      → Result AgentError Bytes
      → World setup
      → World setup × Result AgentError (Unit {0})
  restore_opened db (err e) w = (w, err e)
  restore_opened db (ok dump) w = restore_to_database db dump w

  unfoldable pub restore_from_encrypted_reader :
      DatabaseConfig
      → RestoreFaults
      → Reader
      → World setup
      → World setup × Result AgentError (Unit {0})
  restore_from_encrypted_reader db f r w = restore_opened db (opened f r) w

  -- A file is named by its directory and its name.
  unfoldable pub restore_from_file :
      DatabaseConfig
      → RestoreFaults
      → Bytes
      → Bytes
      → World setup
      → World setup × Result AgentError (Unit {0})
  restore_from_file db f dir name w = elim (find_file dir name w.disk) [
    | none ↦ (w, err (Agent.open_failed f.open_file))
    | some file ↦
        restore_from_encrypted_reader db f
          (if file.is_dir
            then record { bytes = []; fault = some (codes "is a directory") }
            else reader file.content)
          w
  ]

  restore_downloaded :
      DatabaseConfig
      → RestoreFaults
      → Writer × Result S3Error (Unit {0})
      → World setup
      → World setup × Result AgentError (Unit {0})
  restore_downloaded db f (file, err e) w = (w, err (Agent.download_failed e))
  restore_downloaded db f (file, ok done) w = elim f.download_seek [
    | some e ↦ (w, err (Agent.seek_failed e))
    | none ↦ restore_from_encrypted_reader db f (reader file.written) w
  ]

  unfoldable pub restore :
      DatabaseConfig
      → RestoreFaults
      → Bytes
      → World setup
      → World setup × Result AgentError (Unit {0})
  unfolding restore_downloaded
  restore db f backup_id w = elim f.download_temp [
    | some e ↦ (w, err (Agent.temp_failed e))
    | none ↦ elim a.remote [
      | none ↦ (w, err Agent.nil_remote)
      | some p ↦
          restore_downloaded db f
            (download setup.client p backup_id (record { written = []; faults = f.download_writes })
              w.bucket)
            w
    ]
  ]
