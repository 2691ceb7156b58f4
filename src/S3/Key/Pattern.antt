-- ===== src/S3/Key/Pattern.antt =====
-- The pattern of object keys: what it captures, and that `extractMetadataFromKey` never accepts it.
use marmot_cli.Common.{
  ℕ, zero, suc, ◌≡◌, ◌⊎◌, inl, inr, refl, Bool, true, false, ◌∷◌, Option, none, some, arith, Bytes,
  length, if◌then◌else◌, Option-cases,
}
use marmot_cli.S3.Key.{
  match_file, Groups, capture, or_nil, or_else, match_date, segment, match_key,
  find_string_submatch, extract_metadata_from_key,
}

-- Every match has seven texts.
abbrev IsWhole : Option Groups → Type 0
IsWhole none = Unit {0}
IsWhole (some g) = length g ≡ 7

if-IsWhole : (b : Bool) (o : Option Groups) → IsWhole o → IsWhole (if b then o else none)
if-IsWhole true o h = h
if-IsWhole false o h = tt

or_else-IsWhole : (o m : Option Groups) → IsWhole o → IsWhole m → IsWhole (or_else o m)
unfolding or_else
or_else-IsWhole (some g) m h k = h
or_else-IsWhole none m h k = k

capture-IsWhole :
    (whole server y m d : Bytes) (o : Option (Bytes × Bytes))
    → IsWhole (capture whole server y m d o)
unfolding capture
capture-IsWhole whole server y m d none = tt
capture-IsWhole whole server y m d (some (name, stamp)) = refl

match_date-IsWhole : (whole server s : Bytes) → IsWhole (match_date whole server s)
unfolding match_date
match_date-IsWhole whole server (a ∷ b ∷ c ∷ d ∷ s ∷ e ∷ f ∷ t ∷ k ∷ h ∷ u ∷ file) =
    if-IsWhole _ _ (capture-IsWhole whole server _ _ _ (match_file file))
match_date-IsWhole whole server _ = tt

match_key-IsWhole : (whole : Bytes) (n : ℕ) (s : Bytes) → IsWhole (match_key whole n s)
unfolding match_key
match_key-IsWhole whole zero s = tt
match_key-IsWhole whole (suc n) s = elim (Option-cases (segment s)) [
  | inl p ↦ rw (p, match_key) tt
  | inr (cut, p) ↦
      rw (p, match_key)
        (or_else-IsWhole _ _ (match_key-IsWhole whole n cut.1)
          (match_date-IsWhole whole cut.0 cut.1))
]

or_nil-length : (o : Option Groups) → IsWhole o → (length (or_nil o) ≡ 0) ⊎ (length (or_nil o) ≡ 7)
unfolding or_nil
or_nil-length none h = inl refl
or_nil-length (some g) h = inr h

-- A match has seven texts.
pub find_string_submatch-length :
    (key : Bytes)
    → (length (find_string_submatch key) ≡ 0) ⊎ (length (find_string_submatch key) ≡ 7)
unfolding find_string_submatch
find_string_submatch-length key = or_nil-length _ (match_key-IsWhole key (length key) key)

-- `extractMetadataFromKey` accepts no key at all: it asks for six texts, and a match has seven.
pub extract_metadata_from_key-none : (key : Bytes) → extract_metadata_from_key key ≡ none
unfolding extract_metadata_from_key
extract_metadata_from_key-none key = ground (arith, find_string_submatch-length key)
