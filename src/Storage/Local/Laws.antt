-- ===== src/Storage/Local/Laws.antt =====
-- `Save`, `Load`, `Delete` and `List` of the local storage together.
use marmot_cli.Common.{
  ◌≡◌, ◌⊎◌, inl, inr, refl, Bool, not, ◌&&◌, List, [], ◌∷◌, map, Option, none, some, arith, Bytes,
  text_eq, text_eq_refl, Result, ok, err, keep_if, if◌then◌else◌,
}
use marmot_cli.Files.{File, Disk, find_file, remove_file, write_file, read_dir, join}
use marmot_cli.Files.Laws.{find_file-write_file, find_file-remove_file}
use marmot_cli.Streams.{Reader, read_all, reader}
use marmot_cli.Storage.{Time, BackupFile}
use marmot_cli.Storage.Local.{
  LocalStorage, LocalError, open_failed, WriteFaults, copied, save_copy, save, load, delete,
  entry_of, list,
}

copied_ok :
    (f : WriteFaults) (r : Reader) {content : Bytes}
    → copied f r ≡ ok content
    → read_all r ≡ ok content
unfolding copied
copied_ok f r h = ground arith

save_copy_ok :
    (s : LocalStorage) (f : WriteFaults) (name : Bytes) (create : Option Bytes)
    (r : Result Bytes Bytes) (now : Time) (disk : Disk) {path : Bytes}
    → (save_copy s f name create r now disk).1 ≡ ok path
    → (path ≡ join s.base_dir name)
      × (content : Bytes) × (r ≡ ok content)
      × ((save_copy s f name create r now disk).0 ≡ write_file s.base_dir name content now disk)
unfolding save_copy
save_copy_ok s f name (some e) r now disk h = cc
save_copy_ok s f name none (err e) now disk h = cc
save_copy_ok s f name none (ok content) now disk h = (cc, content, refl, refl)

pub save_ok :
    (s : LocalStorage) (f : WriteFaults) (name : Bytes) (r : Reader) (now : Time) (disk : Disk)
    {path : Bytes}
    → (save s f name r now disk).1 ≡ ok path
    → (path ≡ join s.base_dir name)
      × (content : Bytes) × (read_all r ≡ ok content)
      × ((save s f name r now disk).0 ≡ write_file s.base_dir name content now disk)
unfolding save
save_ok s f name r now disk h =
    let (path, content, got, written) = save_copy_ok s f name f.create (copied f r) now disk h in
    (path, content, copied_ok f r got, written)

-- A file that `Save` accepted is loaded with the bytes that its reader held, and every other name loads
-- what it loaded before; the path returned is the directory's with the name.
pub load-save :
    (s : LocalStorage) (f : WriteFaults) (name other fault : Bytes) (r : Reader) (now : Time)
    (disk : Disk) {path : Bytes}
    → (save s f name r now disk).1 ≡ ok path
    → (path ≡ join s.base_dir name)
      × (content : Bytes) × (read_all r ≡ ok content)
      × (load s fault other (save s f name r now disk).0
          ≡ (if text_eq name other then ok (reader content) else load s fault other disk))
unfolding load
load-save s f name other fault r now disk h =
    let (path, content, got, written) = save_ok s f name r now disk h in
    (
      path,
      content,
      got,
      rw written (
          ground (
            arith,
            find_file-write_file s.base_dir other s.base_dir name content now disk,
            text_eq_refl s.base_dir,
          )),
    )

save_copy_error :
    (s : LocalStorage) (f : WriteFaults) (name fault : Bytes) (create : Option Bytes)
    (r : Result Bytes Bytes) (now : Time) (disk : Disk) {e : LocalError}
    → f.unlink ≡ none
    → (save_copy s f name create r now disk).1 ≡ err e
    → ((save_copy s f name create r now disk).0 ≡ disk)
      ⊎ (load s fault name (save_copy s f name create r now disk).0 ≡ err (open_failed fault))
unfolding save_copy load
save_copy_error s f name fault (some m) r now disk u h = inl refl
save_copy_error s f name fault none (ok content) now disk u h = cc
save_copy_error s f name fault none (err m) now disk u h = inr (
    ground (
      arith,
      find_file-remove_file s.base_dir name s.base_dir name disk,
      text_eq_refl s.base_dir,
      text_eq_refl name,
    ))

-- A `Save` that fails, where its own cleanup does not fail, leaves no partial file: either the directory
-- is as it was, or the name loads nothing.
pub save_error :
    (s : LocalStorage) (f : WriteFaults) (name fault : Bytes) (r : Reader) (now : Time)
    (disk : Disk) {e : LocalError}
    → f.unlink ≡ none
    → (save s f name r now disk).1 ≡ err e
    → ((save s f name r now disk).0 ≡ disk)
      ⊎ (load s fault name (save s f name r now disk).0 ≡ err (open_failed fault))
unfolding save
save_error s f name fault r now disk u h =
    save_copy_error s f name fault f.create (copied f r) now disk u h

-- The entries of a listing without those of a name.
abbrev pub without : Bytes → List BackupFile → List BackupFile
without name = keep_if (λ b. not (text_eq b.name name))

listed : LocalStorage → (File → Bool) → Disk → List BackupFile
unfolding keep_if read_dir
listed s unknown disk =
    map (entry_of s) (keep_if (λ f. not f.is_dir && not (unknown f)) (read_dir s.base_dir disk))

listed-remove_file :
    (s : LocalStorage) (unknown : File → Bool) (name : Bytes) (disk : Disk)
    → listed s unknown (remove_file s.base_dir name disk) ≡ without name (listed s unknown disk)
unfolding listed remove_file
listed-remove_file s unknown name [] = refl
listed-remove_file s unknown name (f ∷ fs) = ground (arith, listed-remove_file s unknown name fs)

listed-missing :
    (s : LocalStorage) (unknown : File → Bool) (name : Bytes) (disk : Disk)
    → find_file s.base_dir name disk ≡ none
    → without name (listed s unknown disk) ≡ listed s unknown disk
unfolding listed find_file
listed-missing s unknown name [] h = refl
listed-missing s unknown name (f ∷ fs) h = ground (arith, listed-missing s unknown name fs)

-- After a `Delete` that succeeds, also of a file that is not there, `List` gives what it gave without
-- that name, in the same order.
pub list-delete :
    (s : LocalStorage) (fault : Option Bytes) (unknown : File → Bool) (name : Bytes) (disk : Disk)
    {bs : List BackupFile}
    → (delete s fault name disk).1 ≡ ok tt
    → list s none unknown disk ≡ ok bs
    → list s none unknown (delete s fault name disk).0 ≡ ok (without name bs)
unfolding delete list listed
list-delete s fault unknown name disk done was =
    ground (arith, listed-remove_file s unknown name disk, listed-missing s unknown name disk)
