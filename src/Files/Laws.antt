-- ===== src/Files/Laws.antt =====
-- What a write or a removal does to the file at any place.
use marmot_cli.Common.{
  ◌≡◌, Bool, true, false, ◌&&◌, [], ◌∷◌, none, some, arith, Bytes, ℕ, text_eq, text_eq_iff,
  text_eq_refl, if◌then◌else◌,
}
use marmot_cli.Files.{Disk, find_file, remove_file, write_file}

-- Two places are one.
abbrev pub same_place : Bytes → Bytes → Bytes → Bytes → Bool
same_place d n e m = text_eq d e && text_eq n m

pub find_file-remove_file :
    (e m d n : Bytes) (fs : Disk)
    → find_file e m (remove_file d n fs) ≡ (if same_place d n e m then none else find_file e m fs)
unfolding find_file remove_file
find_file-remove_file e m d n [] = ground arith
find_file-remove_file e m d n (f ∷ fs) = ground (
  arith,
  find_file-remove_file e m d n fs,
  text_eq_iff d e,
  text_eq_iff n m,
  text_eq_iff f.dir e,
  text_eq_iff f.name m,
  text_eq_iff f.dir d,
  text_eq_iff f.name n,
)

pub find_file-write_file :
    (e m d n content : Bytes) (now : ℕ) (fs : Disk)
    → find_file e m (write_file d n content now fs) ≡ (
        if same_place d n e m
        then some (record { dir = d; name = n; content = content; mod_time = now; is_dir = false })
        else find_file e m fs)
unfolding write_file
find_file-write_file e m d n content now fs =
    unfold find_file in rw (find_file-remove_file e m d n fs) (ground arith)

pub same_place_refl : (d n : Bytes) → same_place d n d n ≡ true
same_place_refl d n = ground (arith, text_eq_refl d, text_eq_refl n)
