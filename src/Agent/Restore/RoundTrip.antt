-- ===== src/Agent/Restore/RoundTrip.antt =====
-- What a restore makes of a backup.
use marmot_cli.Common.{
  ℕ, ◌≡◌, refl, ap, sym, ◌∙◌, Bool, false, [], Option, none, some, arith, Bytes, Result, ok, ◌>>=◌,
  ◌>>◌, >>=-eq-ok, >>-eq-ok, length,
}
use marmot_cli.Files.{Disk, find_file, write_file}
use marmot_cli.Files.Laws.{find_file-write_file, same_place_refl}
use marmot_cli.Streams.{reader, fresh}
use marmot_cli.Storage.{Time, BackupFile}
use marmot_cli.Crypto.{encrypt, decrypt, nonce_size}
use marmot_cli.Crypto.RoundTrip.{decrypt-encrypt_any}
use marmot_cli.Config.{DatabaseConfig}
use marmot_cli.Agent.{Gzip, Setup, Agent, World, AgentError}
use marmot_cli.Agent.Programs.{Command, dump_command}
use marmot_cli.Agent.Backup.{
  GzipFaults, BackupFaults, unless, compress, encrypted, seal_zipped, seal_dump, backup_name,
  backup,
}
use marmot_cli.Agent.Upload.{SendFaults, map_err, map_err-eq-ok}
use marmot_cli.Agent.Backup.Saved.{backup_saved}
use marmot_cli.Agent.Restore.{
  RestoreFaults, decompress, decrypted_file, opened, restore_to_database, restore_opened,
  restore_from_encrypted_reader, restore_from_file,
}
use marmot_cli.Agent

-- No call fails.
abbrev pub no_faults : Bytes → RestoreFaults
no_faults e = record {
  download_temp = none;
  download_writes = [];
  download_seek = none;
  open_file = e;
  plain_temp = none;
  plain_writes = [];
  plain_seek = none;
  dump_temp = none;
  dump_copy = none;
  dump_seek = none;
}

pub compress_ok :
    (g : Gzip) (f : GzipFaults) (dump : Bytes) {zipped : Bytes}
    → f.close ≡ none
    → compress g f dump ≡ ok zipped
    → g.unzip zipped ≡ ok dump
unfolding compress
compress_ok g f dump closed h = ground (arith, g.unzip-zip dump)

module _ (setup : Setup) (a : Agent) where
  -- The nonce has the size of the cipher's.
  abbrev pub IsNonce : BackupFaults → Type 0
  IsNonce f = (nonce : Bytes) → f.random ≡ ok nonce → length nonce ≡ nonce_size

  pub encrypted_ok :
      (f : BackupFaults) (zipped : Bytes) {sealed : Bytes}
      → IsNonce f
      → encrypted setup a f zipped ≡ ok sealed
      → decrypt setup.gcm a.encryptor (reader sealed) fresh
        ≡ (record { written = zipped; faults = [] }, ok tt)
  unfolding encrypted
  encrypted_ok f zipped {sealed} n h =
      let (went, same) =
        >>-eq-ok
          (encrypt setup.gcm f.random a.encryptor (reader zipped)
            (record { written = []; faults = f.sealed_writes })).1
          (ok
            (encrypt setup.gcm f.random a.encryptor (reader zipped)
              (record { written = []; faults = f.sealed_writes })).0.written)
          h in
      let text : (encrypt setup.gcm f.random a.encryptor (reader zipped)
            (record { written = []; faults = f.sealed_writes })).0.written
          ≡ sealed =
        cc in
      ap (λ t. decrypt setup.gcm a.encryptor (reader t) fresh) (sym text)
      ∙ decrypt-encrypt_any setup.gcm f.random zipped a.encryptor f.sealed_writes n went

  seal_zipped_ok :
      (f : BackupFaults) (zipped : Bytes) {sealed : Bytes}
      → seal_zipped setup a f zipped ≡ ok sealed
      → encrypted setup a f zipped ≡ ok sealed
  unfolding seal_zipped
  seal_zipped_ok f zipped {sealed} h =
      let last : Bytes → Result AgentError Bytes =
        λ text. unless Agent.seek_failed f.sealed_seek >> ok text in
      let tail = map_err Agent.encrypt_failed (encrypted setup a f zipped) >>= last in
      let (_, h1) =
        >>-eq-ok (unless Agent.seek_failed f.gzip_seek)
          (unless Agent.temp_failed f.sealed_temp >> tail) h in
      let (_, h2) = >>-eq-ok (unless Agent.temp_failed f.sealed_temp) tail h1 in
      let (text, got, h3) =
        >>=-eq-ok (map_err Agent.encrypt_failed (encrypted setup a f zipped)) last h2 in
      let (_, same) = >>-eq-ok (unless Agent.seek_failed f.sealed_seek) (ok text) h3 in
      let text_is : text ≡ sealed = cc in
      map_err-eq-ok Agent.encrypt_failed (encrypted setup a f zipped) got ∙ ap ok text_is

  pub seal_dump_ok :
      (f : BackupFaults) (dump : Bytes) {sealed : Bytes}
      → seal_dump setup a f dump ≡ ok sealed
      → (zipped : Bytes) × (compress setup.gzip f.gzip dump ≡ ok zipped)
        × (encrypted setup a f zipped ≡ ok sealed)
  unfolding seal_dump
  seal_dump_ok f dump h =
      let zip = map_err Agent.compress_failed (compress setup.gzip f.gzip dump) in
      let tail = zip >>= seal_zipped setup a f in
      let (_, h1) =
        >>-eq-ok (unless Agent.seek_failed f.dump_seek)
          (unless Agent.temp_failed f.gzip_temp >> tail) h in
      let (_, h2) = >>-eq-ok (unless Agent.temp_failed f.gzip_temp) tail h1 in
      let (zipped, got, h3) = >>=-eq-ok zip (seal_zipped setup a f) h2 in
      (
        zipped,
        map_err-eq-ok Agent.compress_failed (compress setup.gzip f.gzip dump) got,
        seal_zipped_ok f zipped h3,
      )

  decompress_ok :
      (zipped dump : Bytes)
      → setup.gzip.unzip zipped ≡ ok dump
      → decompress setup.gzip none zipped ≡ ok dump
  unfolding decompress
  decompress_ok zipped dump h = rw h refl

  opened_ok :
      (e sealed zipped dump : Bytes)
      → decrypt setup.gcm a.encryptor (reader sealed) fresh
        ≡ (record { written = zipped; faults = [] }, ok tt)
      → setup.gzip.unzip zipped ≡ ok dump
      → opened setup a (no_faults e) (reader sealed) ≡ ok dump
  unfolding opened decrypted_file
  opened_ok e sealed zipped dump plain dumped = rw (plain, decompress_ok zipped dump dumped) refl

  restore_found :
      (target : DatabaseConfig) (f : RestoreFaults) (dir name sealed dump : Bytes) (time : ℕ)
      (w : World setup)
      → find_file dir name w.disk
        ≡ some
            (record { dir = dir; name = name; content = sealed; mod_time = time; is_dir = false })
      → opened setup a f (reader sealed) ≡ ok dump
      → restore_from_file setup a target f dir name w ≡ restore_to_database setup a target dump w
  unfolding restore_from_file restore_from_encrypted_reader restore_opened
  restore_found target f dir name sealed dump time w found open_it =
      rw (found, restore_from_file, open_it) refl

  pub written_found :
      (dir name content : Bytes) (time : ℕ) (disk : Disk)
      → find_file dir name (write_file dir name content time disk)
        ≡ some
            (record { dir = dir; name = name; content = content; mod_time = time; is_dir = false })
  written_found dir name content time disk = rw (find_file-write_file, same_place_refl) refl

  -- A backup that succeeded, with a nonce of the cipher's size and where the last flush of the
  -- compressor did not fail, saved a file that a restore under the same key turns back into the
  -- dump: while the files are as the backup left them, and no call of the restore before the
  -- program fails, restoring from that file hands the program of the target database exactly the
  -- bytes that the dump program of the source printed.
  pub restore_from_file-backup :
      (db target : DatabaseConfig) (wait : Bool) (f : BackupFaults) (g : SendFaults) (unix : ℕ)
      (created : Time) (w now : World setup) (e : Bytes) {x : Option BackupFile}
      → f.gzip.close ≡ none
      → IsNonce f
      → (backup setup a db wait f g unix created w).1 ≡ ok x
      → now.disk ≡ (backup setup a db wait f g unix created w).0.disk
      → (c : Command) × (dump : Bytes) × (dump_command db ≡ some c)
        × ((setup.programs.run c [] w.databases).1 ≡ ok dump)
        × (restore_from_file setup a target
              (no_faults e)
              a.storage.base_dir
              (backup_name setup a db unix)
              now
            ≡ restore_to_database setup a target dump now)
  restore_from_file-backup db target wait f g unix created w now e closed n h same =
      let (c, dump, sealed, which, ran, seal, saved) =
        backup_saved setup a db wait f g unix created w h in
      let (zipped, zip, crypt) = seal_dump_ok f dump seal in
      let plain = encrypted_ok f zipped n crypt in
      let open_it =
        opened_ok e sealed zipped dump plain (compress_ok setup.gzip f.gzip dump closed zip) in
      let name = backup_name setup a db unix in
      let found : find_file a.storage.base_dir name now.disk
          ≡ some (record {
            dir = a.storage.base_dir;
            name = name;
            content = sealed;
            mod_time = created;
            is_dir = false;
          }) =
        ap (find_file a.storage.base_dir name) (same ∙ saved)
        ∙ written_found a.storage.base_dir name sealed created w.disk in
      (
        c,
        dump,
        which,
        ran,
        restore_found target (no_faults e) a.storage.base_dir name sealed dump created now found
            open_it,
      )
