-- ===== src/Verify/Bson/Encode.antt =====
-- BSON documents as bsonspec.org writes them, for the types that `parseBSONDocument` knows, with the
-- values that Go has for them.
use marmot_cli.Common.{
  ℕ, zero, suc, ◌+◌, ◌/◌, ◌%◌, ◌^◌, ◌<◌, ◌≡◌, ◌≢◌, Bool, List, [], ◌∷◌, ◌++◌, Bytes, codes, length,
  ℤ, All, if◌then◌else◌,
}
use marmot_cli.Verify.Bson.{
  Value, Document, uint64, text, bool, int32, int64, put_field, hex, signed, whole_seconds,
  nanoseconds_left,
}

-- Words are the bit patterns that are written.
pub data Element : Type 0 where
  double datetime : ℕ → Element
  string object_id : Bytes → Element
  boolean : Bool → Element
  int32_bits int64_bits : ℕ → Element

-- `n` in so many bytes.
unfoldable pub word : ℕ → ℕ → Bytes
word zero n = []
word (suc k) n = n % 256 ∷ word k (n / 256)

abbrev pub type_byte : Element → ℕ
type_byte (double n) = 0x01
type_byte (string s) = 0x02
type_byte (object_id bs) = 0x07
type_byte (boolean b) = 0x08
type_byte (datetime n) = 0x09
type_byte (int32_bits n) = 0x10
type_byte (int64_bits n) = 0x12

abbrev pub payload : Element → Bytes
payload (double n) = word 8 n
payload (string s) = word 4 (length s + 1) ++ (s ++ 0 ∷ [])
payload (object_id bs) = bs
payload (boolean b) = (if b then 1 else 0) ∷ []
payload (datetime n) = word 8 n
payload (int32_bits n) = word 4 n
payload (int64_bits n) = word 8 n

-- What fits in the type.
abbrev pub Fits : Element → Type 0
Fits (double n) = n < 2 ^ 64
Fits (string s) = length s + 1 < 2 ^ 32
Fits (object_id bs) = length bs ≡ 12
Fits (boolean b) = Unit
Fits (datetime n) = n < 2 ^ 64
Fits (int32_bits n) = n < 2 ^ 32
Fits (int64_bits n) = n < 2 ^ 64

-- A name has no zero byte, and its value fits.
abbrev pub IsField : Bytes × Element → Type 0
IsField (name, e) = All (λ b. b ≢ 0) name × Fits e

unfoldable pub encode_fields : List (Bytes × Element) → Bytes
encode_fields [] = 0 ∷ []
encode_fields ((name, e) ∷ fields) =
    type_byte e ∷ (name ++ (0 ∷ (payload e ++ encode_fields fields)))

-- A document: its length, which counts itself, its fields and a zero byte.
unfoldable pub encode_document : List (Bytes × Element) → Bytes
unfolding word encode_fields
encode_document fields = word 4 (4 + length (encode_fields fields)) ++ encode_fields fields

module _ (rfc3339 : ℤ → ℤ → Bytes) where
  abbrev pub go_value : Element → Value
  go_value (double n) = uint64 n
  go_value (string s) = text s
  go_value (object_id bs) = text (codes "ObjectId(\"" ++ hex bs ++ codes "\")")
  go_value (boolean b) = bool b
  go_value (datetime n) =
      text (rfc3339 (whole_seconds (signed (2 ^ 63) n)) (nanoseconds_left (signed (2 ^ 63) n)))
  go_value (int32_bits n) = int32 (signed (2 ^ 31) n)
  go_value (int64_bits n) = int64 (signed (2 ^ 63) n)

  -- Field by field behind those that are there: a later field replaces an earlier one of its name.
  unfoldable pub fields_of : List (Bytes × Element) → Document → Document
  unfolding put_field
  fields_of [] doc = doc
  fields_of ((name, e) ∷ fields) doc = fields_of fields (put_field name (go_value e) doc)
