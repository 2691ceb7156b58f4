-- ===== src/S3/Key/BackupId.antt =====
-- Backup ids and their parts.
use marmot_cli.Common.{◌≡◌, refl, false, [], ◌∷◌, ◌++◌, none, some, arith, Bytes, ◌==◌, All, ℕ}
use marmot_cli.S3.Key.{slash, split_first, split_last, parse_backup_id, backup_id}

-- The byte does not stand in the text.
abbrev pub Lacks : ℕ → Bytes → Type 0
Lacks c = All (λ x. (x == c) ≡ false)

pub split_first-append :
    (c : ℕ) (a b : Bytes) → Lacks c a → split_first c (a ++ (c ∷ b)) ≡ some (a, b)
unfolding split_first
split_first-append c [] b h = ground arith
split_first-append c (x ∷ a) b h = ground (arith, split_first-append c a b h.1)

pub split_first-none : (c : ℕ) (a : Bytes) → Lacks c a → split_first c a ≡ none
unfolding split_first
split_first-none c [] h = refl
split_first-none c (x ∷ a) h = ground (arith, split_first-none c a h.1)

pub split_last-none : (c : ℕ) (a : Bytes) → Lacks c a → split_last c a ≡ none
unfolding split_last
split_last-none c [] h = refl
split_last-none c (x ∷ a) h = ground (arith, split_last-none c a h.1)

pub split_last-append :
    (c : ℕ) (a b : Bytes) → Lacks c b → split_last c (a ++ (c ∷ b)) ≡ some (a, b)
unfolding split_last
split_last-append c [] b h = ground (arith, split_last-none c b h)
split_last-append c (x ∷ a) b h = ground (arith, split_last-append c a b h)

-- The id that `Upload` and `ListBackups` give to an object is parsed into its bucket and its key,
-- whichever bucket the provider has, if the bucket's name holds no slash.
pub parse_backup_id-backup_id :
    (own bucket key : Bytes)
    → Lacks slash bucket
    → parse_backup_id own (backup_id bucket key) ≡ some (bucket, key)
unfolding parse_backup_id backup_id
parse_backup_id-backup_id own bucket key h = split_first-append slash bucket key h
