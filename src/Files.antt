-- ===== src/Files.antt =====
-- The file system as the code sees it: files and directories, each addressed by its directory and
-- its name, as in `filepath.Join(dir, name)`; no name holds a separator.
pub mod Laws
use marmot_cli.Common.{
  Bool, not, ◌&&◌, List, [], ◌∷◌, ◌++◌, Option, none, some, Bytes, ℕ, text_eq, if◌then◌else◌,
  keep_if, codes,
}

pub record File : Type 0 where
  pub dir : Bytes
  pub name : Bytes
  pub content : Bytes
  pub mod_time : ℕ
  pub is_dir : Bool

abbrev pub Disk : Type 0
Disk = List File

abbrev pub at : Bytes → Bytes → File → Bool
at dir name f = text_eq f.dir dir && text_eq f.name name

unfoldable pub find_file : Bytes → Bytes → Disk → Option File
find_file dir name [] = none
find_file dir name (f ∷ fs) = if at dir name f then some f else find_file dir name fs

-- `os.Remove`, where it succeeds.
unfoldable pub remove_file : Bytes → Bytes → Disk → Disk
unfolding keep_if
remove_file dir name = keep_if (λ f. not (at dir name f))

-- A file written whole, in place of the one of its name.
unfoldable pub write_file : Bytes → Bytes → Bytes → ℕ → Disk → Disk
unfolding remove_file
write_file dir name content now fs =
    record { dir = dir; name = name; content = content; mod_time = now; is_dir = Bool.false }
    ∷ remove_file dir name fs

-- `os.ReadDir`: the entries of a directory. Their order is that of the list.
unfoldable pub read_dir : Bytes → Disk → List File
unfolding keep_if
read_dir dir = keep_if (λ f. text_eq f.dir dir)

-- `filepath.Join(dir, name)`
abbrev pub join : Bytes → Bytes → Bytes
join dir name = dir ++ codes "/" ++ name
