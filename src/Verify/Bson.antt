-- ===== src/Verify/Bson.antt =====
-- `parseBSONDocument` of cmd/marmot/cmd/verify.go. The position in the document is the bytes that are
-- left, `data[offset:]`.
pub mod Terminates
pub mod Encode
pub mod RoundTrip
use marmot_cli.Common.{
  ℕ, zero, suc, ◌+◌, ◌-◌, ◌*◌, ◌/◌, ◌%◌, ◌^◌, Bool, true, false, not, ◌&&◌, List, [], ◌∷◌, ◌++◌,
  Option, none, some, Bytes, codes, text_eq, Result, ok, err, ltb, leb, length, take, drop, ℤ, pos,
  negsuc, if◌then◌else◌, ◌==◌, repeat,
}

-- The dynamic types that a value may have.
pub data Value : Type 0 where
  uint64 : ℕ → Value
  text : Bytes → Value
  bool : Bool → Value
  int32 int64 : ℤ → Value

-- `map[string]interface{}`, with one entry for a key.
abbrev pub Document : Type 0
Document = List (Bytes × Value)

unfoldable pub put_field : Bytes → Value → Document → Document
put_field name v [] = (name, v) ∷ []
put_field name v ((other, w) ∷ doc) =
    let rest = put_field name v doc in
    if text_eq other name then (name, v) ∷ doc else (other, w) ∷ rest

-- `doc[name]`
unfoldable pub field : Bytes → Document → Option Value
field name [] = none
field name ((other, w) ∷ doc) = if text_eq other name then some w else field name doc

-- `if value != nil { doc[fieldName] = value }`
unfoldable pub store_field : Bytes → Option Value → Document → Document
unfolding put_field
store_field name none doc = doc
store_field name (some v) doc = put_field name v doc

-- `binary.LittleEndian` on all of the bytes.
unfoldable pub little_endian : Bytes → ℕ
little_endian [] = 0
little_endian (b ∷ bs) = b + 256 * little_endian bs

-- The conversion of a word whose sign bit counts `half`.
unfoldable pub signed : ℕ → ℕ → ℤ
signed half n = if ltb n half then pos n else negsuc (half + half - 1 - n)

hex_digit : ℕ → ℕ
hex_digit n = if ltb n 10 then b'0' + n else b'a' + (n - 10)

-- `%x`
unfoldable pub hex : Bytes → Bytes
unfolding hex_digit
hex [] = []
hex (b ∷ bs) = hex_digit (b / 16) ∷ hex_digit (b % 16) ∷ hex bs

-- `ms / 1000` and `(ms % 1000) * 1000000`, which round to zero.
unfoldable pub whole_seconds : ℤ → ℤ
whole_seconds (pos n) = pos (n / 1000)
whole_seconds (negsuc n) = if ltb n 999 then pos 0 else negsuc ((n + 1) / 1000 - 1)

unfoldable pub nanoseconds_left : ℤ → ℤ
nanoseconds_left (pos n) = pos (n % 1000 * 1000000)
nanoseconds_left (negsuc n) =
    if (n + 1) % 1000 == 0 then pos 0 else negsuc ((n + 1) % 1000 * 1000000 - 1)

-- The bytes before the next zero byte, and those behind it.
unfoldable pub with_byte : ℕ → Option (Bytes × Bytes) → Option (Bytes × Bytes)
with_byte b none = none
with_byte b (some (name, after)) = some (b ∷ name, after)

unfoldable pub field_name : Bytes → Option (Bytes × Bytes)
unfolding with_byte
field_name [] = none
field_name (b ∷ bs) =
    let rest = with_byte b (field_name bs) in if b == 0 then some ([], bs) else rest

-- A value of `n` bytes, if there are so many.
unfoldable pub fixed : ℕ → (Bytes → Value) → Bytes → Option Value × Bytes
fixed n value rest =
    if leb n (length rest) then (some (value (take n rest)), drop n rest) else (none, rest)

-- The text behind its length, which counts the zero byte at its end.
unfoldable pub string_body : ℕ → Bytes → Option Value × Bytes
string_body n rest =
    if leb n (length rest) && ltb 0 n
    then (some (text (take (n - 1) rest)), drop n rest)
    else (none, rest)

unfoldable pub read_string : Bytes → Option Value × Bytes
unfolding string_body
read_string rest =
    if leb 4 (length rest)
    then string_body (little_endian (take 4 rest)) (drop 4 rest)
    else (none, rest)

unfoldable pub object_id_value : Bytes → Value
object_id_value bs = text (codes "ObjectId(\"" ++ hex bs ++ codes "\")")

unfoldable pub flag : Bytes → Value
flag bs = bool (not (little_endian bs == 0))

-- Where the loop over the fields is.
pub record Parse : Type 0 where
  pub rest : Bytes
  pub doc : Document

-- `time.Unix(s, ns).Format(time.RFC3339)` in the local time zone.
module _ (rfc3339 : ℤ → ℤ → Bytes) where
  unfoldable pub datetime_value : Bytes → Value
  datetime_value bs =
      let ms = signed (2 ^ 63) (little_endian bs) in
      text (rfc3339 (whole_seconds ms) (nanoseconds_left ms))

  -- The value of a type, and the bytes behind it. Nothing is read of an unknown type.
  unfoldable pub read_value : ℕ → Bytes → Option Value × Bytes
  unfolding fixed read_string object_id_value flag datetime_value
  read_value t rest =
      if t == 0x01
      then fixed 8 (λ bs. uint64 (little_endian bs)) rest
      else if t == 0x02
      then read_string rest
      else if t == 0x07
      then fixed 12 object_id_value rest
      else if t == 0x08
      then fixed 1 flag rest
      else if t == 0x09
      then fixed 8 datetime_value rest
      else if t == 0x10
      then fixed 4 (λ bs. int32 (signed (2 ^ 31) (little_endian bs))) rest
      else if t == 0x12
      then fixed 8 (λ bs. int64 (signed (2 ^ 63) (little_endian bs))) rest
      else (none, rest)

  -- A field behind its type and its name.
  unfoldable pub add_field : ℕ → Option (Bytes × Bytes) → Document → Option Parse
  unfolding read_value store_field
  add_field t none doc = none
  add_field t (some (name, after)) doc =
      let (value, rest) = read_value t after in
      some (record { rest = rest; doc = store_field name value doc })

  -- A round of the loop: it ends at the last byte, at the type 0, and at a name that does not end.
  unfoldable pub next_field : Bytes → Document → Option Parse
  unfolding add_field field_name
  next_field [] doc = none
  next_field (t ∷ []) doc = none
  next_field (t ∷ b ∷ bs) doc = if t == 0 then none else add_field t (field_name (b ∷ bs)) doc

  abbrev pub parse_round : Parse → Option Parse
  parse_round p = next_field p.rest p.doc

  -- The loop starts behind the length. Each round takes two bytes at least.
  unfoldable pub parse_fields : Bytes → Document
  unfolding next_field
  parse_fields bytes =
      (repeat parse_round (length bytes) (record { rest = drop 4 bytes; doc = [] })).doc

  -- The error is "document too short".
  unfoldable pub parse_bson_document : Bytes → Option Document
  unfolding parse_fields
  parse_bson_document bytes = if ltb (length bytes) 5 then none else some (parse_fields bytes)
