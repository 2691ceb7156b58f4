-- ===== src/S3/Key/Capture.antt =====
-- The pattern of object keys matches what `GenerateObjectKey` writes, part by part.
use marmot_cli.Common.{
  ℕ, zero, suc, ◌+◌, ◌/◌, ◌%◌, ◌≤◌, ◌<◌, ◌≡◌, refl, true, false, [], ◌∷◌, ◌++◌, none, some, arith,
  Bytes, ◌==◌, is_empty, decimal, length, length-append, any_of, ap, All-append,
}
use marmot_cli.S3.Key.{
  Stamp, slash, dash, extension, pad2, pad4, format_date, generate_object_key, all_digits,
  match_file, Groups, capture, or_nil, or_else, is_date, match_date, match_key,
  find_string_submatch,
}
use marmot_cli.S3.Key.BackupId.{Lacks}
use marmot_cli.S3.Key.Parts.{
  pad2-Lacks, pad4-Lacks, decimal-all_digits, decimal-not-empty, match_file_ok, match_date-Lacks,
  match_date_short, match_key-Lacks, match_key-append, match_key-append_none,
}

-- The parts of a key that the pattern can tell apart: the prefix is one segment or none, the server
-- and the database have names without a slash, and the date has its digits.
pub record IsPlain (prefix server name : Bytes) (t : Stamp) : Type 0 where
  pub prefix_plain : Lacks slash prefix
  pub server_plain : Lacks slash server
  pub server_named : is_empty server ≡ false
  pub name_plain : Lacks slash name
  pub name_named : is_empty name ≡ false
  pub name_line : any_of (λ c. c == 10) name ≡ false
  pub year_fits : t.year < 10000
  pub month_fits : t.month < 100
  pub day_fits : t.day < 100

file_of : Bytes → Stamp → Bytes
file_of name t = name ++ (dash ∷ (decimal t.unix ++ extension))

Lacks-append : (c : ℕ) (a b : Bytes) → Lacks c a → Lacks c b → Lacks c (a ++ b)
Lacks-append c a b h k = All-append _ a b h k

digits-Lacks : (s : Bytes) → all_digits s ≡ true → Lacks slash s
unfolding all_digits
digits-Lacks [] h = tt
digits-Lacks (c ∷ s) h = (ground arith, digits-Lacks s (ground arith))

match_file-file_of :
    (name : Bytes) (t : Stamp)
    → is_empty name ≡ false
    → any_of (λ c. c == 10) name ≡ false
    → match_file (file_of name t) ≡ some (name, decimal t.unix)
unfolding file_of
match_file-file_of name t h k =
    match_file_ok name (decimal t.unix) h k (decimal-not-empty t.unix) (decimal-all_digits t.unix)

file_of-Lacks : (name : Bytes) (t : Stamp) → Lacks slash name → Lacks slash (file_of name t)
unfolding file_of
file_of-Lacks name t l = Lacks-append slash name _ l (
  refl,
  Lacks-append slash (decimal t.unix) extension (digits-Lacks _ (decimal-all_digits t.unix))
      (refl, (refl, (refl, (refl, tt)))),
)

is_date_ok :
    (y m d : ℕ)
    → y < 10000
    → m < 100
    → d < 100
    → is_date
        (b'0' + y / 100 / 10)
        (b'0' + y / 100 % 10)
        (b'0' + y % 100 / 10)
        (b'0' + y % 100 % 10)
        slash
        (b'0' + m / 10)
        (b'0' + m % 10)
        slash
        (b'0' + d / 10)
        (b'0' + d % 10)
        slash
      ≡ true
unfolding is_date
is_date_ok y m d h k l = ground arith

match_date_ok :
    (whole server name : Bytes) (t : Stamp) (prefix : Bytes)
    → IsPlain prefix server name t
    → match_date whole server (format_date t ++ (slash ∷ file_of name t))
      ≡ some (whole ∷ server ∷ pad4 t.year ∷ pad2 t.month ∷ pad2 t.day ∷ name ∷ decimal t.unix ∷ [])
unfolding match_date format_date
match_date_ok whole server name t prefix p =
    rw
      (
        is_date_ok t.year t.month t.day p.year_fits p.month_fits p.day_fits,
        match_file-file_of name t p.name_named p.name_line,
      )
      (unfold capture in refl)

-- The date holds no key of its own: the star cannot reach into it.
no_deeper :
    (whole name : Bytes) (t : Stamp) (n : ℕ)
    → Lacks slash name
    → match_key whole n (format_date t ++ (slash ∷ file_of name t)) ≡ none
unfolding format_date
no_deeper whole name t n l =
    match_key-append_none whole n (pad4 t.year) months (unfold is_empty in refl) (pad4-Lacks t.year)
      (λ m.
        match_key-append_none whole m (pad2 t.month) days (unfold is_empty in refl)
          (pad2-Lacks t.month)
          (λ k.
            match_key-append_none whole k (pad2 t.day) (file_of name t) (unfold is_empty in refl)
              (pad2-Lacks t.day) (λ j. match_key-Lacks whole j (file_of name t) plain)
              (match_date-Lacks whole (pad2 t.day) (file_of name t) plain))
          (match_date_short whole (pad2 t.month) _ _ _))
      (match_date_short whole (pad4 t.year) _ _ _)
  where
    plain : Lacks slash (file_of name t)
    plain = file_of-Lacks name t l

    days : Bytes
    days = pad2 t.day ++ (slash ∷ file_of name t)

    months : Bytes
    months = pad2 t.month ++ (slash ∷ days)

dated : Bytes → Bytes → Stamp → Bytes
dated server name t = server ++ (slash ∷ (format_date t ++ (slash ∷ file_of name t)))

abbrev captured : Bytes → Bytes → Bytes → Stamp → Groups
captured whole server name t =
    whole ∷ server ∷ pad4 t.year ∷ pad2 t.month ∷ pad2 t.day ∷ name ∷ decimal t.unix ∷ []

match_key-dated :
    (whole prefix server name : Bytes) (t : Stamp) (n : ℕ)
    → IsPlain prefix server name t
    → match_key whole (suc n) (dated server name t) ≡ some (captured whole server name t)
unfolding dated
match_key-dated whole prefix server name t n p =
    rw
      (
        match_key-append whole n server (format_date t ++ (slash ∷ file_of name t)) p.server_named
            p.server_plain,
        no_deeper whole name t n p.name_plain,
        match_date_ok whole server name t prefix p,
      )
      (unfold or_else in refl)

match_key_prefixed :
    (whole prefix server name : Bytes) (t : Stamp) (n : ℕ)
    → IsPlain prefix server name t
    → is_empty prefix ≡ false
    → 2 ≤ n
    → match_key whole n (prefix ++ (slash ∷ dated server name t))
      ≡ some (captured whole server name t)
match_key_prefixed whole prefix server name t zero p e h = absurd (omega arith)
match_key_prefixed whole prefix server name t (suc zero) p e h = absurd (omega arith)
match_key_prefixed whole prefix server name t (suc (suc n)) p e h =
    rw
      (
        match_key-append whole (suc n) prefix (dated server name t) e p.prefix_plain,
        match_key-dated whole prefix server name t n p,
      )
      (unfold or_else in refl)

-- The pattern captures, in a key that `GenerateObjectKey` writes from plain names, the server, the
-- year, the month, the day, the database and the Unix time, in this order behind the whole key.
pub find_string_submatch-generate_object_key :
    (prefix server name : Bytes) (t : Stamp)
    → IsPlain prefix server name t
    → let key = generate_object_key prefix server name t in
      find_string_submatch key
      ≡ key ∷ server ∷ pad4 t.year ∷ pad2 t.month ∷ pad2 t.day ∷ name ∷ decimal t.unix ∷ []
unfolding generate_object_key find_string_submatch or_nil is_empty dated file_of
find_string_submatch-generate_object_key [] (s ∷ server) name t p =
    ap or_nil (match_key-dated _ [] (s ∷ server) name t _ p)
find_string_submatch-generate_object_key (x ∷ prefix) server name t p = ap or_nil (
    match_key_prefixed _ (x ∷ prefix) server name t
      (length (generate_object_key (x ∷ prefix) server name t)) p refl
      (omega (arith, length-append prefix (slash ∷ dated server name t))))
find_string_submatch-generate_object_key [] [] name t p = absurd (cc p.server_named)
