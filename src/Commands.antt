-- ===== src/Commands.antt =====
-- What the commands of cmd/marmot/cmd share: files that are named by a path, and the key file.
pub mod Restore
pub mod Prepare
pub mod Backup
pub mod Start
pub mod Decrypt
pub mod Keys
mod Examples
use marmot_cli.Common.{
  Option, none, some, [], Bytes, codes, Result, ok, err, if◌then◌else◌, text_eq, Bool, ◌||◌, length,
  arith, ◌≡◌, refl, false,
}
use marmot_cli.Files.{File, Disk, find_file}
use marmot_cli.Streams.{Reader, reader}
use marmot_cli.S3.Key.{split_last}
use marmot_cli.Crypto.{AesEncryptor, CryptoError, new_aes_encryptor, load_key, load_key_from_file}

in_dir : Option (Bytes × Bytes) → Bytes → Bytes × Bytes
in_dir none path = (codes ".", path)
in_dir (some (dir, name)) path = (dir, name)

-- The directory and the name of a path, which is cut at its last slash.
unfoldable pub split_path : Bytes → Bytes × Bytes
unfolding split_last in_dir
split_path path = in_dir (split_last b'/' path) path

opened : Bytes → Option File → Result Bytes Reader
opened fault none = err fault
opened fault (some f) = ok (
    if f.is_dir
    then record { bytes = []; fault = some (codes "is a directory") }
    else reader f.content)

-- `os.Open`; `fault` is its error, also for a file that is not there.
unfoldable pub open_path : Bytes → Bytes → Disk → Result Bytes Reader
unfolding opened split_path
open_path fault path disk =
    let (dir, name) = split_path path in opened fault (find_file dir name disk)

-- A file that is there and is no directory opens with its content.
pub open_path-found :
    (fault path : Bytes) (disk : Disk) (f : File)
    → find_file (split_path path).0 (split_path path).1 disk ≡ some f
    → f.is_dir ≡ false
    → open_path fault path disk ≡ ok (reader f.content)
unfolding open_path opened
open_path-found fault path disk f found plain = rw (found, opened) (rw plain refl)

-- A new encryptor with the key of the file.
unfoldable pub encryptor_of : Bytes → Bytes → Disk → Result CryptoError AesEncryptor
unfolding split_path load_key_from_file
encryptor_of fault path disk =
    let (dir, name) = split_path path in
    let (e, loaded) = load_key_from_file dir name disk fault new_aes_encryptor in
    elim loaded [ err x ↦ err x | ok done ↦ ok e ]

-- A key that was loaded from a file has 32 bytes.
pub encryptor_of-length :
    (fault path : Bytes) (disk : Disk) {e : AesEncryptor}
    → encryptor_of fault path disk ≡ ok e
    → length e.key ≡ 32
unfolding encryptor_of load_key
encryptor_of-length fault path disk h = ground arith

-- What the user answers to a prompt of `restore`.
abbrev pub is_yes : Bytes → Bool
is_yes response = text_eq response (codes "y") || text_eq response (codes "yes")
