-- ===== src/Commands/Decrypt.antt =====
-- `runDecrypt` of cmd/marmot/cmd/decrypt.go.
pub mod Plain
use marmot_cli.Common.{
  ℕ, ◌-◌, Option, Bytes, codes, is_empty, to_lower, length, take, Result, ok, err, ◌>>=◌, ◌>>◌,
  List, [], if◌then◌else◌,
}
use marmot_cli.Files.{Disk, write_file}
use marmot_cli.Streams.{Reader}
use marmot_cli.Crypto.{CryptoError, AesEncryptor, Gcm, decrypt}
use marmot_cli.Cleanup.{has_suffix}
use marmot_cli.Config.{Config, Paths}
use marmot_cli.Config.Databases.{ConfigFiles, load_config}
use marmot_cli.Agent.{Gzip}
use marmot_cli.Agent.Upload.{map_err}
use marmot_cli.Agent.Backup.{unless}
use marmot_cli.Agent.Restore.{decompress}
use marmot_cli.Commands.{split_path, open_path, encryptor_of}

pub data DecryptError : Type 0 where
  load_failed open_failed temp_failed seek_failed create_failed decompression_failed :
      Bytes → DecryptError
  key_failed decryption_failed : CryptoError → DecryptError

-- The errors of the calls; `partial` is what a decompression that fails has written.
pub record DecryptFaults : Type 0 where
  pub read_key : Bytes
  pub open_file : Bytes
  pub temp : Option Bytes
  pub plain_writes : List (Option Bytes)
  pub seek : Option Bytes
  pub create : Option Bytes
  pub copy : Option Bytes
  pub partial : Bytes

-- Without `--out` it is the path of the input without its `.enc`, in either case.
unfoldable pub output_path : Bytes → Bytes → Bytes
unfolding has_suffix to_lower
output_path in_file out_file =
    if is_empty out_file
    then (if has_suffix (codes ".enc") (to_lower in_file)
        then take (length in_file - 4) in_file
        else in_file)
    else out_file

module _ (gcm : Gcm) (gzip : Gzip) (f : DecryptFaults) where
  decrypted : AesEncryptor → Reader → Result DecryptError Bytes
  decrypted e r =
      let (temp, done) = decrypt gcm e r (record { written = []; faults = f.plain_writes }) in
      map_err decryption_failed done >> ok temp.written

  -- What is decompressed, before the output is created.
  unfoldable pub unsealed : Bytes → Disk → Config → Result DecryptError Bytes
  unfolding decrypted
  unsealed in_file disk cfg = do
    e ← map_err key_failed (encryptor_of f.read_key cfg.paths.key_file disk)
    r ← map_err open_failed (open_path f.open_file in_file disk)
    unless temp_failed f.temp
    zipped ← decrypted e r
    unless seek_failed f.seek
    unless create_failed f.create
    ok zipped

  -- The output was truncated when it was created, and stays where the decompression fails.
  written_out : Bytes → ℕ → Disk → Result Bytes Bytes → Disk × Result DecryptError (Unit {0})
  written_out path now disk r =
      let (dir, name) = split_path path in
      elim r [
        | ok dump ↦ (write_file dir name dump now disk, ok tt)
        | err e ↦ (write_file dir name f.partial now disk, err (decompression_failed e))
      ]

  unfoldable pub run_decrypt :
      Paths → Bytes → ConfigFiles → Bytes → Bytes → ℕ → Disk → Disk × Result DecryptError (Unit {0})
  unfolding unsealed written_out output_path
  run_decrypt paths path files in_file out_file now disk =
      let zipped = map_err load_failed (load_config paths path files) >>= unsealed in_file disk in
      elim zipped [
        | err e ↦ (disk, err e)
        | ok bytes ↦
            written_out (output_path in_file out_file) now disk (decompress gzip f.copy bytes)
      ]
