-- ===== src/Agent/Restore/Sealed.antt =====
-- The file that a backup has saved, and what it opens to.
use marmot_cli.Common.{◌≡◌, ap, ◌∙◌, Bool, false, [], Option, none, some, Bytes, ok, ℕ}
use marmot_cli.Files.{File, find_file}
use marmot_cli.Streams.{reader, fresh}
use marmot_cli.Storage.{Time, BackupFile}
use marmot_cli.Crypto.{decrypt}
use marmot_cli.Config.{DatabaseConfig}
use marmot_cli.Agent.{Setup, Agent, World}
use marmot_cli.Agent.Programs.{Command, dump_command}
use marmot_cli.Agent.Upload.{SendFaults}
use marmot_cli.Agent.Backup.{BackupFaults, backup_name, backup}
use marmot_cli.Agent.Backup.Saved.{backup_saved}
use marmot_cli.Agent.Restore.RoundTrip.{
  IsNonce, encrypted_ok, seal_dump_ok, compress_ok, written_found,
}

abbrev pub file_at : Bytes → Bytes → Bytes → Time → File
file_at dir name content time = record {
  dir = dir;
  name = name;
  content = content;
  mod_time = time;
  is_dir = false;
}

module _ (setup : Setup) (a : Agent) where
  -- The file of a backup that succeeded decrypts, under the same key, to what is compressed of the dump.
  pub backup-sealed :
      (db : DatabaseConfig) (wait : Bool) (f : BackupFaults) (g : SendFaults) (unix : ℕ)
      (created : Time) (w : World setup) {x : Option BackupFile}
      → f.gzip.close ≡ none
      → IsNonce setup a f
      → (backup setup a db wait f g unix created w).1 ≡ ok x
      → (c : Command) × (dump : Bytes) × (sealed : Bytes) × (zipped : Bytes) × (dump_command db
          ≡ some c)
        × ((setup.programs.run c [] w.databases).1 ≡ ok dump)
        × (decrypt setup.gcm a.encryptor (reader sealed) fresh
            ≡ (record { written = zipped; faults = [] }, ok tt))
        × (setup.gzip.unzip zipped ≡ ok dump)
        × (find_file a.storage.base_dir
              (backup_name setup a db unix)
              (backup setup a db wait f g unix created w).0.disk
            ≡ some (file_at a.storage.base_dir (backup_name setup a db unix) sealed created))
  backup-sealed db wait f g unix created w closed n h =
      let (c, dump, sealed, which, ran, seal, saved) =
        backup_saved setup a db wait f g unix created w h in
      let (zipped, zip, crypt) = seal_dump_ok setup a f dump seal in
      let name = backup_name setup a db unix in
      (
        c,
        dump,
        sealed,
        zipped,
        which,
        ran,
        encrypted_ok setup a f zipped n crypt,
        compress_ok setup.gzip f.gzip dump closed zip,
        ap (find_file a.storage.base_dir name) saved
            ∙ written_found setup a a.storage.base_dir name sealed created w.disk,
      )
