-- ===== src/Verify/Sql/Pattern.antt =====
-- The regular expressions `createTableRegex` and `insertRegex` of `verifySQLDump` in cmd/marmot/cmd/verify.go.
use marmot_cli.Common.{
  ℕ, ◌+◌, Bool, ◌||◌, ◌&&◌, [], ◌∷◌, Option, none, some, Bytes, codes, leb, if◌then◌else◌, ◌==◌,
  is_digit,
}

-- `\s` and `\w`
is_blank : ℕ → Bool
is_blank c = leb b'\t' c && leb c b'\n' || (c == b'\r' || (c == 0x0c || c == b' '))

is_word : ℕ → Bool
is_word c = is_digit c || (leb b'a' c && leb c b'z' || (leb b'A' c && leb c b'Z' || c == b'_'))

is_quote : ℕ → Bool
is_quote c = c == b'"' || (c == b'\'' || c == b'`')

-- The text behind a letter in either case. The letter U+017F is an `s` to `(?i)`.
fold_letter : ℕ → Bytes → Option Bytes
fold_letter k [] = none
fold_letter k (a ∷ []) = if a == k || a == k + 32 then some [] else none
fold_letter k (a ∷ b ∷ s) =
    if a == k || a == k + 32
    then some (b ∷ s)
    else if k == b'S' && (a == 0xc5 && b == 0xbf)
    then some s
    else none

infixl 5 ◌>>=◌
abbrev ◌>>=◌ {ℓ κ} : {A : Type ℓ} {B : Type κ} → Option A → (A → Option B) → Option B
none >>= f = none
some a >>= f = f a

-- The text behind the keyword, which is given in capitals.
unfoldable pub keyword : Bytes → Bytes → Option Bytes
unfolding fold_letter
keyword [] s = some s
keyword (k ∷ ks) s = do rest ← fold_letter k s; keyword ks rest

skip_blanks : Bytes → Bytes
unfolding is_blank
skip_blanks [] = []
skip_blanks (c ∷ s) = let rest = skip_blanks s in if is_blank c then rest else c ∷ s

-- `\s+`: what follows here never starts with a blank, so all of them are taken.
unfoldable pub blanks : Bytes → Option Bytes
unfolding skip_blanks is_blank
blanks [] = none
blanks (c ∷ s) = if is_blank c then some (skip_blanks s) else none

word_from : Bytes → Bytes
unfolding is_word
word_from [] = []
word_from (c ∷ s) = let rest = word_from s in if is_word c then c ∷ rest else []

-- `(\w+)`
unfoldable pub word : Bytes → Option Bytes
unfolding word_from
word s = elim (word_from s) [ [] ↦ none | c ∷ w ↦ some (c ∷ w) ]

-- `["'\x60]?(\w+)`; the quote behind the word changes nothing.
unfoldable pub quoted_word : Bytes → Option Bytes
unfolding word is_quote
quoted_word [] = none
quoted_word (c ∷ s) = if is_quote c then word s else word (c ∷ s)

or_else : Option Bytes → Option Bytes → Option Bytes
or_else none other = other
or_else (some a) other = some a

-- `IF\s+NOT\s+EXISTS\s+` and the name.
guarded_name : Bytes → Option Bytes
unfolding keyword blanks quoted_word
guarded_name s = do
  s ← keyword (codes "IF") s
  s ← blanks s
  s ← keyword (codes "NOT") s
  s ← blanks s
  s ← keyword (codes "EXISTS") s
  s ← blanks s
  quoted_word s

-- `createTableRegex` at the start of the text.
unfoldable pub create_table_here : Bytes → Option Bytes
unfolding keyword blanks quoted_word guarded_name or_else
create_table_here s = do
  s ← keyword (codes "CREATE") s
  s ← blanks s
  s ← keyword (codes "TABLE") s
  s ← blanks s
  or_else (guarded_name s) (quoted_word s)

-- `insertRegex` at the start of the text.
unfoldable pub insert_here : Bytes → Option Bytes
unfolding keyword blanks quoted_word
insert_here s = do
  s ← keyword (codes "INSERT") s
  s ← blanks s
  s ← keyword (codes "INTO") s
  s ← blanks s
  quoted_word s

-- `FindStringSubmatch(line)[1]`: the leftmost place that matches.
unfoldable pub find_submatch : (Bytes → Option Bytes) → Bytes → Option Bytes
unfolding or_else
find_submatch here [] = here []
find_submatch here (c ∷ s) = or_else (here (c ∷ s)) (find_submatch here s)

unfoldable pub created_table : Bytes → Option Bytes
unfolding find_submatch create_table_here
created_table line = find_submatch create_table_here line

unfoldable pub inserted_table : Bytes → Option Bytes
unfolding find_submatch insert_here
inserted_table line = find_submatch insert_here line
