-- ===== src/Storage/Local/Examples.antt =====
-- A directory with two files, and the theorems on the local storage at it.
use marmot_cli.Common.{
  ◌≡◌, refl, true, false, [], ◌∷◌, none, some, codes, ok, err, text_eq, keep_if, pos, negsuc,
  strip_prefix,
}
use marmot_cli.Files.{File, Disk, find_file, read_dir}
use marmot_cli.Streams.{reader, read_all}
use marmot_cli.Storage.Local.{
  LocalStorage, copy_failed, WriteFaults, save, delete, list, entry_of, get_disk_usage, total_size,
}

abbrev here : LocalStorage
here = record { base_dir = codes "/b" }

abbrev one : File
one = record {
  dir = codes "/b";
  name = codes "a.enc";
  content = codes "aa";
  mod_time = 5;
  is_dir = false;
}

abbrev sub : File
sub = record { dir = codes "/b"; name = codes "old"; content = []; mod_time = 5; is_dir = true }

abbrev disk : Disk
disk = one ∷ sub ∷ []

abbrev fine : WriteFaults
fine = record { create = none; copy = none; unlink = none; partial = [] }

abbrev full : WriteFaults
full = record fine { copy = some (codes "disk full") }

-- Directories are not listed.
listed : list here none (λ f. false) disk ≡ ok (entry_of here one ∷ [])
unfolding list keep_if read_dir text_eq
listed = refl

used :
    (get_disk_usage here none none disk).0
    ≡ record { total = negsuc 0; used = pos 2; available = negsuc 0 }
unfolding get_disk_usage total_size text_eq strip_prefix
used = refl

saves : (save here fine (codes "b.enc") (reader (codes "bb")) 7 disk).1 ≡ ok (codes "/b/b.enc")
unfolding save read_all
saves = refl

fails :
    (save here full (codes "b.enc") (reader (codes "bb")) 7 disk).1
    ≡ err (copy_failed (codes "disk full"))
unfolding save read_all
fails = refl

deletes : (delete here none (codes "a.enc") disk).1 ≡ ok tt
unfolding delete find_file text_eq
deletes = refl
