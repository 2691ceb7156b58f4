-- ===== src/Commands/Keys/Moved.antt =====
-- A key that is exported on one server and imported on another.
use marmot_cli.Common.{ℕ, ◌≡◌, refl, sym, ap, ◌∙◌, none, arith, Bytes, ok, >>=-eq-ok, length}
use marmot_cli.Files.{Disk}
use marmot_cli.Crypto.{Base64, AesEncryptor, new_aes_encryptor, export_key_as_base64, load_key}
use marmot_cli.Crypto.Keys.{load_key_from_file-save_key_to_file}
use marmot_cli.Config.{Paths}
use marmot_cli.Agent.Upload.{map_err, map_err-eq-ok}
use marmot_cli.Commands.{split_path, encryptor_of, encryptor_of-length}
use marmot_cli.Commands.Keys.{
  load_failed, export_failed, key_export, imported, saved, decoded, loaded, key_import,
}
use marmot_cli.PidFile.{trim_space}

-- The key behind a text that was exported, and how it was encoded.
exported :
    (b : Base64) (fault : Bytes) (paths : Paths) (disk : Disk) {text : Bytes}
    → key_export b fault paths disk ≡ ok text
    → (e : AesEncryptor) × (encryptor_of fault paths.key_file disk ≡ ok e) × (text ≡ b.encode e.key)
unfolding key_export export_key_as_base64
exported b fault paths disk {text} h =
    let (e, got, made) =
      >>=-eq-ok (map_err load_failed (encryptor_of fault paths.key_file disk))
        (λ e. map_err export_failed (export_key_as_base64 b e)) h in
    let known = map_err-eq-ok load_failed (encryptor_of fault paths.key_file disk) got in
    let shown = map_err-eq-ok export_failed (export_key_as_base64 b e) made in
    (e, known, ground arith)

imported_lem :
    (b : Base64) (key text : Bytes)
    → length key ≡ 32
    → trim_space text ≡ b.encode key
    → imported b none text ≡ ok (record { key = key })
unfolding imported decoded loaded load_key
imported_lem b key text full same = rw (same, b.decode-encode key) (ground arith)

saved_lem :
    (fault : Bytes) (paths : Paths) (now : ℕ) (disk : Disk) (e : AesEncryptor)
    → length e.key ≡ 32
    → let (disk', r) = saved none paths now disk e in
      (r ≡ ok tt) × (encryptor_of fault paths.key_file disk' ≡ ok e)
unfolding saved encryptor_of
saved_lem fault paths now disk e full =
    let (dir, name) = split_path paths.key_file in
    let (done, loads) =
      load_key_from_file-save_key_to_file dir name fault now disk e new_aes_encryptor full in
    (rw done refl, rw (loads, encryptor_of) (ap (λ p. ok p.0) loads))

-- A text that was exported on one server and is imported on another, with any blanks around it and where the
-- directory and the file can be written, leaves there a key file from which the same encryptor is loaded.
pub key_import-key_export :
    (b : Base64) (fault fault' : Bytes) (paths paths' : Paths) (text typed : Bytes) (now : ℕ)
    (disk disk' : Disk)
    → key_export b fault paths disk ≡ ok text
    → trim_space typed ≡ text
    → let (d, r) = key_import b none none paths' typed now disk' in
      (r ≡ ok tt) × (encryptor_of fault' paths'.key_file d ≡ encryptor_of fault paths.key_file disk)
unfolding key_import
key_import-key_export b fault fault' paths paths' text typed now disk disk' h blanks =
    let (e, known, shown) = exported b fault paths disk h in
    let full = encryptor_of-length fault paths.key_file disk known in
    let here = imported_lem b e.key typed full (blanks ∙ shown) in
    let (done, loads) = saved_lem fault' paths' now disk' e full in
    rw (here, key_import) (done, loads ∙ sym known)
