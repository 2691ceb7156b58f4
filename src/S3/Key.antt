-- ===== src/S3/Key.antt =====
-- Object keys: `GenerateObjectKey` of internal/s3/provider.go, and `keyPattern`, `parseBackupID` and
-- `extractMetadataFromKey` of internal/s3/s3.go. The calendar date of a time is part of the time.
pub mod Pattern
pub mod Parts
pub mod Capture
pub mod BackupId
use marmot_cli.Common.{
  strip_prefix, decimal_value, ℕ, zero, suc, ◌+◌, ◌-◌, ◌*◌, ◌/◌, ◌%◌, ◌^◌, Bool, true, false, ◌&&◌,
  ◌||◌, not, List, [], ◌∷◌, ◌++◌, Option, none, some, Bytes, ◌≡◌, refl, codes, ◌==◌, leb, ltb,
  is_digit, is_empty, decimal, text_eq, length, if◌then◌else◌, any_of, Result, ok, err,
}

-- A `time.Time` at or after 1970, with the date that it has in its zone; `pad4` prints years below 10000.
pub record Stamp : Type 0 where
  pub unix : ℕ
  pub year : ℕ
  pub month : ℕ
  pub day : ℕ

abbrev pub slash : ℕ
slash = b'/'

abbrev pub dash : ℕ
dash = b'-'

abbrev pub extension : Bytes
extension = codes ".enc"

unfoldable pub pad2 : ℕ → Bytes
pad2 n = (b'0' + n / 10) ∷ (b'0' + n % 10) ∷ []

unfoldable pub pad4 : ℕ → Bytes
unfolding pad2
pad4 n = pad2 (n / 100) ++ pad2 (n % 100)

-- `timestamp.Format("2006/01/02")`
unfoldable pub format_date : Stamp → Bytes
unfolding pad4 pad2
format_date t = pad4 t.year ++ (slash ∷ pad2 t.month ++ (slash ∷ pad2 t.day))

unfoldable pub generate_object_key : Bytes → Bytes → Bytes → Stamp → Bytes
unfolding format_date decimal
generate_object_key prefix server_id database_name t =
    let filename = database_name ++ (dash ∷ decimal t.unix ++ extension) in
    let dated = server_id ++ (slash ∷ format_date t ++ (slash ∷ filename)) in
    if not (is_empty prefix) then prefix ++ (slash ∷ dated) else dated

-- The text before the first `c` and the text behind it.
unfoldable pub split_first : ℕ → Bytes → Option (Bytes × Bytes)
split_first c [] = none
split_first c (x ∷ xs) =
    if x == c
    then some ([], xs)
    else elim (split_first c xs) [ none ↦ none | some (a, b) ↦ some (x ∷ a, b) ]

-- The text before the last `c` and the text behind it.
unfoldable pub split_last : ℕ → Bytes → Option (Bytes × Bytes)
split_last c [] = none
split_last c (x ∷ xs) = elim (split_last c xs) [
  | some (a, b) ↦ some (x ∷ a, b)
  | none ↦ if x == c then some ([], xs) else none
]

-- The text without the suffix, if it has it.
unfoldable pub strip_suffix : Bytes → Bytes → Option Bytes
strip_suffix suffix [] = if text_eq [] suffix then some [] else none
strip_suffix suffix (x ∷ xs) =
    if text_eq (x ∷ xs) suffix
    then some []
    else elim (strip_suffix suffix xs) [ none ↦ none | some a ↦ some (x ∷ a) ]

pub all_digits : Bytes → Bool
all_digits [] = true
all_digits (c ∷ cs) = is_digit c && all_digits cs

-- `(.+)-(\d+)\.enc$`: the digits hold no dash, so the dash is the last one.
pub match_stem : Option (Bytes × Bytes) → Option (Bytes × Bytes)
unfolding all_digits
match_stem none = none
match_stem (some (name, stamp)) =
    if is_empty name || (any_of (λ c. c == 10) name || (is_empty stamp || not (all_digits stamp)))
    then none
    else some (name, stamp)

pub match_file : Bytes → Option (Bytes × Bytes)
unfolding match_stem split_last strip_suffix
match_file s = elim (strip_suffix extension s) [
  | none ↦ none
  | some stem ↦ match_stem (split_last dash stem)
]

-- The groups of a match, the whole text first.
abbrev pub Groups : Type 0
Groups = List Bytes

-- `\d{4}/\d{2}/\d{2}/`
pub is_date : ℕ → ℕ → ℕ → ℕ → ℕ → ℕ → ℕ → ℕ → ℕ → ℕ → ℕ → Bool
is_date a b c d s e f t g h u =
    (is_digit a && (is_digit b && (is_digit c && is_digit d)))
    && ((is_digit e && is_digit f)
        && ((is_digit g && is_digit h) && (s == slash && (t == slash && u == slash))))

pub capture : Bytes → Bytes → Bytes → Bytes → Bytes → Option (Bytes × Bytes) → Option Groups
capture whole server year month day none = none
capture whole server year month day (some (name, stamp)) =
    some (whole ∷ server ∷ year ∷ month ∷ day ∷ name ∷ stamp ∷ [])

-- `(\d{4})/(\d{2})/(\d{2})/` and the file behind it.
pub match_date : Bytes → Bytes → Bytes → Option Groups
unfolding match_file is_date capture
match_date whole server (a ∷ b ∷ c ∷ d ∷ s ∷ e ∷ f ∷ t ∷ g ∷ h ∷ u ∷ file) =
    if is_date a b c d s e f t g h u
    then capture whole server (a ∷ b ∷ c ∷ d ∷ []) (e ∷ f ∷ []) (g ∷ h ∷ []) (match_file file)
    else none
match_date whole server _ = none

-- `[^/]+/`
pub segment : Bytes → Option (Bytes × Bytes)
unfolding split_first
segment s = elim (split_first slash s) [
  | none ↦ none
  | some (seg, rest) ↦ if is_empty seg then none else some (seg, rest)
]

-- `^(?:[^/]+/)*([^/]+)/…`: the star takes as many segments as it can. A segment is at least two bytes
-- long with its slash, so the length of the text is enough fuel.
pub or_else : Option Groups → Option Groups → Option Groups
or_else (some g) m = some g
or_else none m = m

pub match_key : Bytes → ℕ → Bytes → Option Groups
unfolding or_else
match_key whole zero s = none
match_key whole (suc f) s = elim (segment s) [
  | none ↦ none
  | some (seg, rest) ↦ or_else (match_key whole f rest) (match_date whole seg rest)
]

pub or_nil : Option Groups → Groups
or_nil none = []
or_nil (some groups) = groups

-- `keyPattern.FindStringSubmatch(key)`: nil, or the whole match and one text for each of the six
-- groups of the pattern.
pub find_string_submatch : Bytes → Groups
unfolding match_key match_date segment or_nil
find_string_submatch key = or_nil (match_key key (length key) key)

abbrev pub get_or_empty : Groups → ℕ → Bytes
get_or_empty [] i = []
get_or_empty (x ∷ xs) zero = x
get_or_empty (x ∷ xs) (suc i) = get_or_empty xs i

-- `strconv.ParseInt(s, 10, 64)` of digits; `none` is its error, which leaves the zero time.
parse_int64 : Bytes → Option ℕ
unfolding decimal_value
parse_int64 s =
    if is_empty s
    then none
    else if not (all_digits s)
    then none
    else if ltb (decimal_value s 0) (2 ^ 63)
    then some (decimal_value s 0)
    else none

pub record KeyMetadata : Type 0 where
  pub server_id : Bytes
  pub database_name : Bytes
  pub timestamp : Option ℕ

-- The result `ok` is whether there is a value.
pub extract_metadata_from_key : Bytes → Option KeyMetadata
unfolding find_string_submatch parse_int64
extract_metadata_from_key key =
    let matches = find_string_submatch key in
    if not (length matches == 6)
    then none
    else some (record {
      server_id = get_or_empty matches 1;
      database_name = get_or_empty matches 4;
      timestamp = parse_int64 (get_or_empty matches 5);
    })

abbrev pub scheme : Bytes
scheme = codes "s3://"

-- `none` is the error "invalid S3 backup ID format"; `bucket` is the provider's own.
unfoldable pub parse_backup_id : Bytes → Bytes → Option (Bytes × Bytes)
unfolding strip_prefix split_first
parse_backup_id bucket id = elim (strip_prefix scheme id) [
  | some path ↦ split_first slash path
  | none ↦ some (bucket, id)
]

-- `fmt.Sprintf("s3://%s/%s", bucket, key)`
unfoldable pub backup_id : Bytes → Bytes → Bytes
backup_id bucket key = scheme ++ (bucket ++ (slash ∷ key))

sample : Bytes
unfolding generate_object_key
sample =
    generate_object_key (codes "p") (codes "web-01") (codes "my-db")
      (record { unix = 1705312800; year = 2024; month = 1; day = 15 })

sample_key : sample ≡ codes "p/web-01/2024/01/15/my-db-1705312800.enc"
unfolding sample is_empty
sample_key = refl

sample_groups :
    find_string_submatch sample
    ≡ sample
      ∷ codes "web-01"
      ∷ codes "2024"
      ∷ codes "01"
      ∷ codes "15"
      ∷ codes "my-db"
      ∷ codes "1705312800"
      ∷ []
unfolding sample find_string_submatch is_empty any_of text_eq
sample_groups = refl
