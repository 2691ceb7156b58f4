-- ===== src/Commands/Examples/Files.antt =====
-- The theorems on the file of a backup, and on keys, at one server.
use marmot_cli.Common.{
  ◌≡◌, refl, true, false, [], none, some, Bytes, codes, ok, text_eq, is_empty, decimal, digits,
  keep_if, ◌++◌,
}
use marmot_cli.Files.{find_file, write_file, remove_file}
use marmot_cli.Streams.{reader, read_all, write}
use marmot_cli.Storage.Local.{save}
use marmot_cli.S3.Key.{split_last}
use marmot_cli.Crypto.{encrypt, load_key, load_key_from_file}
use marmot_cli.Crypto.Examples.{key_32, keyed}
use marmot_cli.Config.Examples.{paths, shop, with_shop}
use marmot_cli.Agent.Programs.{Command, dump_command}
use marmot_cli.Agent.Backup.{compress, encrypted, seal_zipped, seal_dump, backup_name, backup}
use marmot_cli.Agent.Upload.{map_err}
use marmot_cli.Agent.Examples.{toy, printers, local_agent, fine, fine_send, fine-IsNonce}
use marmot_cli.Verify.Report.{detect_db_type_from_filename}
use marmot_cli.Verify.Command.{VerifyFlags, verify_dump, run_verify, verification_failed}
use marmot_cli.Verify.Command.Sealed.{run_verify-backup}
use marmot_cli.Commands.{encryptor_of, split_path}
use marmot_cli.Agent.Restore.Sealed.{file_at}
use marmot_cli.Commands.Decrypt.{output_path, run_decrypt}
use marmot_cli.Commands.Decrypt.Plain.{no_decrypt_faults, run_decrypt-backup}
use marmot_cli.Crypto.{Base64, export_key_as_base64}
use marmot_cli.Config.{Paths}
use marmot_cli.PidFile.{trim_left, trim_right, trim_space}
use marmot_cli.Commands.Keys.{key_export, key_import}
use marmot_cli.Commands.Keys.Moved.{key_import-key_export}
use marmot_cli.Commands.Examples.{
  as_it_is, no_time, local_files, server, no_verify_faults, local_loads,
}

abbrev of_file : VerifyFlags
of_file = record {
  backup_id = [];
  database_id = [];
  latest = false;
  enc_file = codes "/b/" ++ backup_name toy local_agent shop 7;
}

backed_up : (backup toy local_agent shop true fine fine_send 7 9 server).1 ≡ ok none
unfolding backup dump_command seal_dump seal_zipped encrypted compress encrypt save find_file
    write_file remove_file read_all write text_eq is_empty decimal digits keep_if
backed_up = refl

backed_up-split_path :
    split_path of_file.enc_file ≡ (codes "/b", backup_name toy local_agent shop 7)
unfolding split_path split_last decimal digits
backed_up-split_path = refl

backed_up-encryptor_of :
    encryptor_of [] paths.key_file
      (backup toy local_agent shop true fine fine_send 7 9 server).0.disk
    ≡ ok keyed
unfolding encryptor_of backup dump_command seal_dump seal_zipped encrypted compress encrypt save
    find_file write_file remove_file read_all write text_eq is_empty decimal digits keep_if
    split_path split_last load_key_from_file load_key
backed_up-encryptor_of = refl

run_verify-backup_example :
    let now = (backup toy local_agent shop true fine fine_send 7 9 server).0 in
    (c : Command) × (dump : Bytes) × (dump_command shop ≡ some c)
    × ((printers.run c [] []).1 ≡ ok dump)
    × (run_verify toy no_verify_faults now as_it_is no_time paths [] local_files of_file
        ≡ map_err verification_failed (
            verify_dump as_it_is no_time no_verify_faults
              (detect_db_type_from_filename of_file.enc_file)
              (reader dump)))
unfolding is_empty
run_verify-backup_example =
    run_verify-backup toy local_agent no_verify_faults
      (backup toy local_agent shop true fine fine_send 7 9 server).0 as_it_is no_time paths []
      local_files of_file with_shop shop true fine fine_send 7 9 server refl fine-IsNonce backed_up
      refl local_loads refl backed_up-split_path backed_up-encryptor_of

run_decrypt-backup_example :
    let disk = (backup toy local_agent shop true fine fine_send 7 9 server).0.disk in
    let (disk', r) =
      run_decrypt toy.gcm toy.gzip
        (no_decrypt_faults [])
        paths
        []
        local_files
        of_file.enc_file
        (codes "/tmp/x.sql")
        9
        disk in
    let (dir, name) = split_path (output_path of_file.enc_file (codes "/tmp/x.sql")) in
    (c : Command) × (dump : Bytes) × (dump_command shop ≡ some c)
    × ((printers.run c [] []).1 ≡ ok dump)
    × (r ≡ ok tt)
    × (find_file dir name disk' ≡ some (file_at dir name dump 9))
run_decrypt-backup_example =
    run_decrypt-backup toy local_agent [] paths [] local_files of_file.enc_file (codes "/tmp/x.sql")
      9 (backup toy local_agent shop true fine fine_send 7 9 server).0.disk with_shop shop true fine
      fine_send 7 9 server refl fine-IsNonce backed_up refl local_loads backed_up-split_path
      backed_up-encryptor_of

-- Base64 that leaves a text as it is.
abbrev plain : Base64
plain = record { encode = λ bs. bs; decode = λ bs. some bs; decode-encode = λ bs. refl }

abbrev elsewhere : Paths
elsewhere = record paths { key_file = codes "/srv/key.bin" }

shown : key_export plain [] paths server.disk ≡ ok key_32
unfolding key_export encryptor_of find_file load_key load_key_from_file split_path split_last
    text_eq export_key_as_base64
shown = refl

line_trimmed : trim_space (codes "0123456789abcdef0123456789abcdef\n") ≡ key_32
unfolding trim_left trim_right is_empty
line_trimmed = refl

key_import-key_export_example :
    let (d, r) =
      key_import plain none none elsewhere (codes "0123456789abcdef0123456789abcdef\n") 5 [] in
    (r ≡ ok tt)
    × (encryptor_of [] elsewhere.key_file d ≡ encryptor_of [] paths.key_file server.disk)
key_import-key_export_example =
    key_import-key_export plain [] [] paths elsewhere key_32
      (codes "0123456789abcdef0123456789abcdef\n") 5 server.disk [] shown line_trimmed
