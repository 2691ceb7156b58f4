-- ===== src/Storage/Local.antt =====
-- The local storage of internal/storage/local.go: a directory of backup files.
pub mod Laws
mod Examples
use marmot_cli.Common.{
  ℕ, ◌+◌, ◌-◌, ◌%◌, ◌^◌, Bool, true, false, not, ◌&&◌, ◌||◌, List, [], ◌∷◌, ◌++◌, map, Option, none,
  some, Bytes, codes, text_eq, strip_prefix, Result, ok, err, ℤ, pos, negsuc, ltb, length, keep_if,
  if◌then◌else◌,
}
use marmot_cli.Files.{File, Disk, find_file, remove_file, write_file, read_dir, join}
use marmot_cli.Streams.{Reader, read_all, reader}
use marmot_cli.Storage.{Time, BackupFile, DiskUsage}

pub record LocalStorage : Type 0 where
  pub base_dir : Bytes

pub data LocalError : Type 0 where
  mkdir_failed create_failed copy_failed open_failed unlink_failed read_dir_failed walk_failed
        stat_failed :
      Bytes → LocalError

-- `fault` is the error of `MkdirAll`.
unfoldable pub new_local_storage : Option Bytes → Bytes → Result LocalError LocalStorage
new_local_storage (some e) dir = err (mkdir_failed e)
new_local_storage none dir = ok (record { base_dir = dir })

-- The errors of the calls of `Save`; `partial` is what a failing copy has written so far.
pub record WriteFaults : Type 0 where
  pub create : Option Bytes
  pub copy : Option Bytes
  pub unlink : Option Bytes
  pub partial : Bytes

-- `io.Copy`, which fails where the reader or the disk does.
pub copied : WriteFaults → Reader → Result Bytes Bytes
copied f r = elim f.copy [ some e ↦ err e | none ↦ read_all r ]

-- The file is created or cut to nothing before the copy; the removal after a failed copy may fail too,
-- which goes unseen.
save_copy :
    LocalStorage
    → WriteFaults
    → Bytes
    → Option Bytes
    → Result Bytes Bytes
    → Time
    → Disk
    → Disk × Result LocalError Bytes
save_copy s f name (some e) copy now disk = (disk, err (create_failed e))
save_copy s f name none (ok content) now disk =
    (write_file s.base_dir name content now disk, ok (join s.base_dir name))
save_copy s f name none (err e) now disk = (
  elim f.unlink [
    | none ↦ remove_file s.base_dir name disk
    | some m ↦ write_file s.base_dir name f.partial now disk
  ],
  err (copy_failed e),
)

unfoldable pub save :
    LocalStorage → WriteFaults → Bytes → Reader → Time → Disk → Disk × Result LocalError Bytes
unfolding copied save_copy
save s f name r now disk = save_copy s f name f.create (copied f r) now disk

-- The file opened for reading; a directory opens and cannot be read. `fault` is the error of
-- `os.Open`, also where there is no file.
unfoldable pub load : LocalStorage → Bytes → Bytes → Disk → Result LocalError Reader
load s fault name disk = elim (find_file s.base_dir name disk) [
  | none ↦ err (open_failed fault)
  | some f ↦ ok (
      if f.is_dir
      then record { bytes = []; fault = some (codes "is a directory") }
      else reader f.content)
]

-- A file that is not there is no error.
unfoldable pub delete :
    LocalStorage → Option Bytes → Bytes → Disk → Disk × Result LocalError (Unit {0})
delete s fault name disk = elim (find_file s.base_dir name disk) [
  | none ↦ (disk, ok tt)
  | some f ↦ elim fault [
    | some e ↦ (disk, err (unlink_failed e))
    | none ↦ (remove_file s.base_dir name disk, ok tt)
  ]
]

abbrev pub entry_of : LocalStorage → File → BackupFile
entry_of s f = record {
  name = f.name;
  path = join s.base_dir f.name;
  size = length f.content;
  created_at = f.mod_time;
  database_id = [];
  retry_count = 0;
  last_retry_at = 0;
}

-- `unknown` are the entries whose `Info` fails, which are left out.
unfoldable pub list :
    LocalStorage → Option Bytes → (File → Bool) → Disk → Result LocalError (List BackupFile)
unfolding keep_if read_dir
list s fault unknown disk = elim fault [
  | some e ↦ err (read_dir_failed e)
  | none ↦
      ok (
        map (entry_of s)
          (keep_if (λ f. not f.is_dir && not (unknown f)) (read_dir s.base_dir disk)))
]

-- The file lies in the directory or below it.
abbrev below : Bytes → File → Bool
below dir f =
    text_eq f.dir dir
    || (elim (strip_prefix (dir ++ codes "/") f.dir) [ none ↦ false | some rest ↦ true ])

unfoldable pub total_size : Bytes → Disk → ℕ
total_size dir [] = 0
total_size dir (f ∷ fs) =
    let rest = total_size dir fs in
    if below dir f && not f.is_dir then length f.content + rest else rest

-- The sum is an `int64`.
abbrev pub int64 : ℕ → ℤ
int64 n = let low = n % 2 ^ 64 in if ltb low (2 ^ 63) then pos low else negsuc (2 ^ 64 - 1 - low)

-- The total and what is available are not found out: both are -1.
unfoldable pub get_disk_usage :
    LocalStorage → Option Bytes → Option Bytes → Disk → DiskUsage × Result LocalError (Unit {0})
unfolding total_size
get_disk_usage s walk stat disk = elim walk [
  | some e ↦ (record { total = pos 0; used = pos 0; available = pos 0 }, err (walk_failed e))
  | none ↦
      let used = int64 (total_size s.base_dir disk) in
      elim stat [
        | some e ↦ (record { total = pos 0; used = used; available = pos 0 }, err (stat_failed e))
        | none ↦ (record { total = negsuc 0; used = used; available = negsuc 0 }, ok tt)
      ]
]
