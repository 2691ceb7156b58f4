-- ===== src/S3/Key/Parts.antt =====
-- The parts of a key against the parts of the pattern: digits, the file name, a segment.
use native.Mathlib.Numerals.{add-one}
use marmot_cli.Common.{
  ℕ, zero, suc, ◌+◌, ◌/◌, ◌%◌, ◌≡◌, inl, inr, refl, Bool, true, false, [], ◌∷◌, ◌++◌, none, some,
  arith, Bytes, ◌==◌, is_empty, digits, decimal, text_eq, text_eq_iff, text_eq_refl, length,
  length-append, any_of, Bool-cases, ap, append_assoc,
}
use marmot_cli.S3.Key.{
  slash, dash, extension, pad2, pad4, strip_suffix, all_digits, match_stem, match_file, or_else,
  is_date, match_date, segment, match_key,
}
use marmot_cli.S3.Key.BackupId.{Lacks, split_first-append, split_first-none, split_last-append}

-- The digits of a number.
pub digits-all_digits :
    (f n : ℕ) (out : Bytes) → all_digits out ≡ true → all_digits (digits f n out) ≡ true
unfolding digits all_digits
digits-all_digits zero n out h = h
digits-all_digits (suc f) n out h =
    ground (arith, digits-all_digits f (n / 10) ((b'0' + n % 10) ∷ out))

pub digits-not-empty : (f n : ℕ) (c : ℕ) (out : Bytes) → is_empty (digits f n (c ∷ out)) ≡ false
unfolding digits is_empty
digits-not-empty zero n c out = refl
digits-not-empty (suc f) n c out =
    ground (arith, digits-not-empty f (n / 10) (b'0' + n % 10) (c ∷ out))

pub decimal-all_digits : (n : ℕ) → all_digits (decimal n) ≡ true
unfolding decimal
decimal-all_digits n = digits-all_digits (n + 1) n [] (unfold all_digits in refl)

pub decimal-not-empty : (n : ℕ) → is_empty (decimal n) ≡ false
unfolding decimal digits is_empty
decimal-not-empty n = rw add-one (ground (arith, digits-not-empty n (n / 10) (b'0' + n % 10) []))

pub all_digits-Lacks : (s : Bytes) → all_digits s ≡ true → Lacks dash s
unfolding all_digits
all_digits-Lacks [] h = tt
all_digits-Lacks (c ∷ s) h = (ground arith, all_digits-Lacks s (ground arith))

pub strip_suffix-append :
    (suffix a : Bytes) → is_empty suffix ≡ false → strip_suffix suffix (a ++ suffix) ≡ some a
unfolding strip_suffix
strip_suffix-append [] a h = unfold is_empty in absurd (cc h)
strip_suffix-append (y ∷ ys) [] h = rw text_eq_refl
strip_suffix-append (y ∷ ys) (x ∷ a) h = elim (Bool-cases (text_eq (x ∷ (a ++ y ∷ ys)) (y ∷ ys))) [
  | inl p ↦ absurd (omega (arith, ap length ((text_eq_iff _ _).0 p), length-append a (y ∷ ys)))
  | inr p ↦ rw (p, strip_suffix-append (y ∷ ys) a h)
]

abbrev has_newline : Bytes → Bool
has_newline = any_of λ c. c == 10

pub match_stem_ok :
    (name stamp : Bytes)
    → is_empty name ≡ false
    → any_of (λ c. c == 10) name ≡ false
    → is_empty stamp ≡ false
    → all_digits stamp ≡ true
    → match_stem (some (name, stamp)) ≡ some (name, stamp)
unfolding match_stem
match_stem_ok name stamp a b c d = ground arith

pub match_file_ok :
    (name stamp : Bytes)
    → is_empty name ≡ false
    → any_of (λ c. c == 10) name ≡ false
    → is_empty stamp ≡ false
    → all_digits stamp ≡ true
    → match_file (name ++ (dash ∷ (stamp ++ extension))) ≡ some (name, stamp)
unfolding match_file
match_file_ok name stamp a b c d = rw (← append_assoc name (dash ∷ stamp) extension) (
    rw
      (strip_suffix-append extension (name ++ (dash ∷ stamp)) (unfold is_empty in refl), match_file)
      (rw (split_last-append dash name stamp (all_digits-Lacks stamp d))
        (match_stem_ok name stamp a b c d)))

-- No date stands where there is no slash, nor where the third byte is one.
pub match_date-Lacks : (whole server s : Bytes) → Lacks slash s → match_date whole server s ≡ none
unfolding match_date
match_date-Lacks whole server (a ∷ b ∷ c ∷ d ∷ s ∷ e ∷ f ∷ t ∷ k ∷ h ∷ u ∷ file) l =
    unfold is_date in ground arith
match_date-Lacks whole server _ l = refl

pub match_date_short :
    (whole server : Bytes) (a b : ℕ) (s : Bytes)
    → match_date whole server (a ∷ b ∷ slash ∷ s) ≡ none
unfolding match_date
match_date_short whole server a b (d ∷ s ∷ e ∷ f ∷ t ∷ k ∷ h ∷ u ∷ file) =
    unfold is_date in ground arith
match_date_short whole server a b _ = refl

pub segment-append :
    (a b : Bytes) → is_empty a ≡ false → Lacks slash a → segment (a ++ (slash ∷ b)) ≡ some (a, b)
unfolding segment
segment-append a b n l = rw (split_first-append slash a b l, segment) (ground arith)

pub match_key-Lacks :
    (whole : Bytes) (n : ℕ) (s : Bytes) → Lacks slash s → match_key whole n s ≡ none
unfolding match_key segment
match_key-Lacks whole zero s l = refl
match_key-Lacks whole (suc n) s l = rw (split_first-none slash s l, segment, match_key)

-- One round of the star.
pub match_key-append :
    (whole : Bytes) (n : ℕ) (a b : Bytes)
    → is_empty a ≡ false
    → Lacks slash a
    → match_key whole (suc n) (a ++ (slash ∷ b))
      ≡ or_else (match_key whole n b) (match_date whole a b)
unfolding match_key
match_key-append whole n a b e l = rw (segment-append a b e l, match_key)

pub match_key-append_none :
    (whole : Bytes) (n : ℕ) (a b : Bytes)
    → is_empty a ≡ false
    → Lacks slash a
    → ((m : ℕ) → match_key whole m b ≡ none)
    → match_date whole a b ≡ none
    → match_key whole n (a ++ (slash ∷ b)) ≡ none
match_key-append_none whole zero a b e l h d = unfold match_key in refl
match_key-append_none whole (suc n) a b e l h d =
    rw (match_key-append whole n a b e l, h n, d) (unfold or_else in refl)

pub pad2-Lacks : (n : ℕ) → Lacks slash (pad2 n)
unfolding pad2
pad2-Lacks n = ground arith

pub pad4-Lacks : (n : ℕ) → Lacks slash (pad4 n)
unfolding pad4
pad4-Lacks n = ground arith
