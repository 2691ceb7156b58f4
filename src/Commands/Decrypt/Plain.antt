-- ===== src/Commands/Decrypt/Plain.antt =====
-- What `marmot decrypt` makes of a backup that the agent saved.
use marmot_cli.Common.{ℕ, ◌≡◌, refl, ap, ◌∙◌, Bool, [], Option, none, some, Bytes, ok}
use marmot_cli.Files.{Disk, find_file, write_file}
use marmot_cli.Streams.{reader, fresh}
use marmot_cli.Storage.{Time, BackupFile}
use marmot_cli.Crypto.{decrypt}
use marmot_cli.Config.{Config, DatabaseConfig, Paths}
use marmot_cli.Config.Databases.{ConfigFiles, load_config}
use marmot_cli.Agent.{Setup, Agent, World}
use marmot_cli.Agent.Programs.{Command, dump_command}
use marmot_cli.Agent.Upload.{SendFaults}
use marmot_cli.Agent.Backup.{BackupFaults, backup_name, backup}
use marmot_cli.Agent.Restore.{decompress}
use marmot_cli.Agent.Restore.RoundTrip.{IsNonce, written_found}
use marmot_cli.Agent.Restore.Sealed.{file_at, backup-sealed}
use marmot_cli.Commands.{open_path-found, encryptor_of, split_path}
use marmot_cli.Commands.Decrypt.{
  DecryptFaults, decrypted, unsealed, written_out, output_path, run_decrypt,
}

-- No call fails.
abbrev pub no_decrypt_faults : Bytes → DecryptFaults
no_decrypt_faults e = record {
  read_key = e;
  open_file = e;
  temp = none;
  plain_writes = [];
  seek = none;
  create = none;
  copy = none;
  partial = e;
}

module _ (setup : Setup) (a : Agent) (e : Bytes) where
  decrypted_lem :
      (sealed zipped : Bytes)
      → decrypt setup.gcm a.encryptor (reader sealed) fresh
        ≡ (record { written = zipped; faults = [] }, ok tt)
      → decrypted setup.gcm setup.gzip (no_decrypt_faults e) a.encryptor (reader sealed) ≡ ok zipped
  unfolding decrypted
  decrypted_lem sealed zipped h = rw h refl

  unsealed_lem :
      (in_file sealed zipped : Bytes) (created : Time) (disk : Disk) (cfg : Config)
      → encryptor_of e cfg.paths.key_file disk ≡ ok a.encryptor
      → find_file (split_path in_file).0 (split_path in_file).1 disk
        ≡ some (file_at (split_path in_file).0 (split_path in_file).1 sealed created)
      → decrypt setup.gcm a.encryptor (reader sealed) fresh
        ≡ (record { written = zipped; faults = [] }, ok tt)
      → unsealed setup.gcm setup.gzip (no_decrypt_faults e) in_file disk cfg ≡ ok zipped
  unfolding unsealed
  unsealed_lem in_file sealed zipped created disk cfg key found plain =
      rw
        (
          key,
          open_path-found e in_file disk
              (file_at (split_path in_file).0 (split_path in_file).1 sealed created) found refl,
          decrypted_lem sealed zipped plain,
        )
        refl

  run_decrypt_lem :
      (paths : Paths) (path : Bytes) (files : ConfigFiles) (in_file out_file : Bytes) (now : ℕ)
      (disk : Disk) (cfg : Config) (zipped dump : Bytes)
      → load_config paths path files ≡ ok cfg
      → unsealed setup.gcm setup.gzip (no_decrypt_faults e) in_file disk cfg ≡ ok zipped
      → setup.gzip.unzip zipped ≡ ok dump
      → let (dir, name) = split_path (output_path in_file out_file) in
        run_decrypt setup.gcm setup.gzip
          (no_decrypt_faults e)
          paths
          path
          files
          in_file
          out_file
          now
          disk
        ≡ (write_file dir name dump now disk, ok tt)
  unfolding run_decrypt written_out decompress
  run_decrypt_lem paths path files in_file out_file now disk cfg zipped dump loaded opens dumped =
      rw (loaded, opens, dumped, run_decrypt) refl

  -- A backup that succeeded, with a nonce of the cipher's size and where the last flush of the compressor
  -- did not fail, saved a file from which `marmot decrypt` under the same key, where no call fails, writes
  -- exactly the dump that the dump program printed to the output path: a file that is there with that
  -- content afterwards.
  pub run_decrypt-backup :
      (paths : Paths) (path : Bytes) (files : ConfigFiles) (in_file out_file : Bytes) (now : ℕ)
      (disk : Disk) (cfg : Config) (db : DatabaseConfig) (wait : Bool) (b : BackupFaults)
      (g : SendFaults) (unix : ℕ) (created : Time) (w : World setup) {x : Option BackupFile}
      → b.gzip.close ≡ none
      → IsNonce setup a b
      → (backup setup a db wait b g unix created w).1 ≡ ok x
      → disk ≡ (backup setup a db wait b g unix created w).0.disk
      → load_config paths path files ≡ ok cfg
      → split_path in_file ≡ (a.storage.base_dir, backup_name setup a db unix)
      → encryptor_of e cfg.paths.key_file disk ≡ ok a.encryptor
      → let (disk', r) =
          run_decrypt setup.gcm setup.gzip
            (no_decrypt_faults e)
            paths
            path
            files
            in_file
            out_file
            now
            disk in
        let (dir, name) = split_path (output_path in_file out_file) in
        (c : Command) × (dump : Bytes) × (dump_command db ≡ some c)
        × ((setup.programs.run c [] w.databases).1 ≡ ok dump)
        × (r ≡ ok tt)
        × (find_file dir name disk' ≡ some (file_at dir name dump now))
  run_decrypt-backup paths path files in_file out_file now disk cfg db wait b g unix created w
        closed n h same loaded where_it_is key =
      let (c, dump, sealed, zipped, which, ran, plain, dumped, kept) =
        backup-sealed setup a db wait b g unix created w closed n h in
      let found = ap (find_file a.storage.base_dir (backup_name setup a db unix)) same ∙ kept in
      let opens =
        unsealed_lem in_file sealed zipped created disk cfg key (rw where_it_is found) plain in
      let done =
        run_decrypt_lem paths path files in_file out_file now disk cfg zipped dump loaded opens
          dumped in
      let (dir, name) = split_path (output_path in_file out_file) in
      (c, dump, which, ran, rw done refl, rw done (written_found setup a dir name dump now disk))
