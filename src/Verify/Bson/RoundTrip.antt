-- ===== src/Verify/Bson/RoundTrip.antt =====
-- What is written as BSON is parsed to what was written.
use marmot_cli.Common.{
  ℕ, zero, suc, ◌+◌, ◌-◌, ◌/◌, ◌^◌, ◌<◌, ◌≤◌, ◌≡◌, ◌≢◌, refl, Bool, true, false, List, [], ◌∷◌,
  ◌++◌, Option, none, some, arith, Bytes, if◌then◌else◌, ◌==◌, length, length-append, take, drop,
  take-append, drop-append, ℤ, All, append_assoc, subst, Ends, Ends-unique, exit, again,
}
use marmot_cli.Verify.Bson.{
  Value, uint64, text, bool, int32, int64, signed, flag, object_id_value, datetime_value, Document,
  Parse, put_field, little_endian, field_name, fixed, string_body, read_string, read_value,
  add_field, next_field, parse_round, parse_fields, parse_bson_document, store_field,
}
use marmot_cli.Verify.Bson.Terminates.{parse_fields-Ends}
use marmot_cli.Verify.Bson.Encode.{
  Element, double, datetime, string, object_id, boolean, int32_bits, int64_bits, word, payload,
  type_byte, Fits, IsField, encode_fields, encode_document, go_value, fields_of,
}

pub length-word : (k n : ℕ) → length (word k n) ≡ k
unfolding word
length-word zero n = refl
length-word (suc k) n = omega (arith, length-word k (n / 256))

pub little_endian-word : (k n : ℕ) → n < 256 ^ k → little_endian (word k n) ≡ n
unfolding little_endian word
little_endian-word zero n h = omega arith
little_endian-word (suc k) n h = grind (arith, little_endian-word k (n / 256))

field_name-append :
    (name rest : Bytes)
    → All (λ b. b ≢ 0) name
    → field_name (name ++ (0 ∷ rest)) ≡ some (name, rest)
unfolding field_name
field_name-append [] rest h = ground arith
field_name-append (b ∷ name) rest (first, others) =
    rw (field_name-append name rest others) (ground arith)

pub take-word : (k n : ℕ) (rest : Bytes) → take k (word k n ++ rest) ≡ word k n
take-word k n rest =
    subst (λ j. take j (word k n ++ rest) ≡ word k n) (length-word k n)
      (take-append (word k n) rest)

drop-word : (k n : ℕ) (rest : Bytes) → drop k (word k n ++ rest) ≡ rest
drop-word k n rest =
    subst (λ j. drop j (word k n ++ rest) ≡ rest) (length-word k n) (drop-append (word k n) rest)

fixed-append :
    (f : Bytes → Value) (n : ℕ) (bs rest : Bytes)
    → length bs ≡ n
    → fixed n f (bs ++ rest) ≡ (some (f bs), rest)
unfolding fixed
fixed-append f n bs rest h =
    subst (λ k. fixed k f (bs ++ rest) ≡ (some (f bs), rest)) h
      (simp (take-append bs rest, drop-append bs rest) (ground (arith, length-append bs rest)))

fixed-word :
    (f : ℕ → Value) (k n : ℕ) (rest : Bytes)
    → n < 256 ^ k
    → fixed k (λ bs. f (little_endian bs)) (word k n ++ rest) ≡ (some (f n), rest)
fixed-word f k n rest h =
    rw (fixed-append (λ bs. f (little_endian bs)) k (word k n) rest (length-word k n))
      (rw (little_endian-word k n h))

string_body-append :
    (s rest : Bytes) → string_body (length s + 1) ((s ++ 0 ∷ []) ++ rest) ≡ (some (text s), rest)
unfolding string_body
string_body-append s rest =
    let front : take (length s + 1 - 1) ((s ++ 0 ∷ []) ++ rest) ≡ s =
      let e : length s + 1 - 1 ≡ length s = omega arith in
      rw e (rw (append_assoc s (0 ∷ []) rest) (take-append s (0 ∷ rest))) in
    let back : drop (length s + 1) ((s ++ 0 ∷ []) ++ rest) ≡ rest =
      let e : length s + 1 ≡ length (s ++ 0 ∷ []) = omega (arith, length-append s (0 ∷ [])) in
      rw e (drop-append (s ++ 0 ∷ []) rest) in
    rw (front, back) (ground (arith, length-append (s ++ 0 ∷ []) rest, length-append s (0 ∷ [])))

read_string-append :
    (s rest : Bytes)
    → length s + 1 < 2 ^ 32
    → read_string (payload (string s) ++ rest) ≡ (some (text s), rest)
unfolding read_string
read_string-append s rest h =
    let n = length s + 1 in
    let bytes = (s ++ 0 ∷ []) ++ rest in
    rw (append_assoc (word 4 n) (s ++ 0 ∷ []) rest) (
      rw (take-word 4 n bytes, drop-word 4 n bytes, little_endian-word 4 n h)
        (ground
          (arith, string_body-append s rest, length-append (word 4 n) bytes, length-word 4 n)))

flag-append :
    (b : Bool) (rest : Bytes) → fixed 1 flag (payload (boolean b) ++ rest) ≡ (some (bool b), rest)
unfolding fixed flag little_endian
flag-append true rest = ground arith
flag-append false rest = ground arith

type_byte-typed : (e : Element) (a b : Option Parse) → (if type_byte e == 0 then a else b) ≡ b
type_byte-typed (double n) a b = refl
type_byte-typed (string s) a b = refl
type_byte-typed (object_id bs) a b = refl
type_byte-typed (boolean f) a b = refl
type_byte-typed (datetime n) a b = refl
type_byte-typed (int32_bits n) a b = refl
type_byte-typed (int64_bits n) a b = refl

length-encode_fields : (fields : List (Bytes × Element)) → 1 ≤ length (encode_fields fields)
unfolding encode_fields
length-encode_fields [] = omega arith
length-encode_fields (f ∷ fields) = omega arith

pub length-encode_document-le :
    (fields : List (Bytes × Element)) → 5 ≤ length (encode_document fields)
unfolding encode_document
length-encode_document-le fields =
    let n = 4 + length (encode_fields fields) in
    omega (
      arith,
      length-append (word 4 n) (encode_fields fields),
      length-word 4 n,
      length-encode_fields fields,
    )

module _ (rfc3339 : ℤ → ℤ → Bytes) where
  read_value-append :
      (e : Element) (rest : Bytes)
      → Fits e
      → read_value rfc3339 (type_byte e) (payload e ++ rest) ≡ (some (go_value rfc3339 e), rest)
  unfolding read_value object_id_value datetime_value
  read_value-append (double n) rest h = fixed-word uint64 8 n rest h
  read_value-append (string s) rest h = read_string-append s rest h
  read_value-append (object_id bs) rest h = fixed-append object_id_value 12 bs rest h
  read_value-append (boolean b) rest h = flag-append b rest
  read_value-append (datetime n) rest h =
      rw (fixed-append (datetime_value rfc3339) 8 (word 8 n) rest (length-word 8 n))
        (rw (little_endian-word 8 n h))
  read_value-append (int32_bits n) rest h = fixed-word (λ n. int32 (signed (2 ^ 31) n)) 4 n rest h
  read_value-append (int64_bits n) rest h = fixed-word (λ n. int64 (signed (2 ^ 63) n)) 8 n rest h

  next_field-typed :
      (e : Element) (name more : Bytes) (doc : Document)
      → next_field rfc3339 (type_byte e ∷ (name ++ (0 ∷ more))) doc
        ≡ add_field rfc3339 (type_byte e) (field_name (name ++ (0 ∷ more))) doc
  unfolding next_field
  next_field-typed e [] more doc = type_byte-typed e _ _
  next_field-typed e (b ∷ name) more doc = type_byte-typed e _ _

  added :
      (name : Bytes) (e : Element) (more : Bytes) (doc : Document)
      → Fits e
      → add_field rfc3339 (type_byte e) (some (name, payload e ++ more)) doc
        ≡ some (record { rest = more; doc = put_field name (go_value rfc3339 e) doc })
  unfolding add_field store_field
  added name e more doc fits = rw (read_value-append e more fits)

  next_field-append :
      (name : Bytes) (e : Element) (more : Bytes) (doc : Document)
      → IsField (name, e)
      → next_field rfc3339 (type_byte e ∷ (name ++ (0 ∷ (payload e ++ more)))) doc
        ≡ some (record { rest = more; doc = put_field name (go_value rfc3339 e) doc })
  next_field-append name e more doc (no_zero, fits) =
      rw (next_field-typed e name (payload e ++ more) doc)
        (rw (field_name-append name (payload e ++ more) no_zero) (added name e more doc fits))

  next_field-last : (doc : Document) → next_field rfc3339 (0 ∷ []) doc ≡ none
  unfolding next_field
  next_field-last doc = refl

  encode_fields-Ends :
      (fields : List (Bytes × Element)) (doc : Document)
      → All IsField fields
      → Ends
          (parse_round rfc3339)
          (record { rest = encode_fields fields; doc = doc })
          (record { rest = 0 ∷ []; doc = fields_of rfc3339 fields doc })
  unfolding encode_fields fields_of
  encode_fields-Ends [] doc h = exit (next_field-last doc)
  encode_fields-Ends ((name, e) ∷ fields) doc (first, others) =
      again (next_field-append name e (encode_fields fields) doc first)
        (encode_fields-Ends fields (put_field name (go_value rfc3339 e) doc) others)

  parse_fields-encode_document :
      (fields : List (Bytes × Element))
      → All IsField fields
      → parse_fields rfc3339 (encode_document fields) ≡ fields_of rfc3339 fields []
  unfolding encode_document
  parse_fields-encode_document fields h =
      let (last, ends, result) = parse_fields-Ends rfc3339 (encode_document fields) in
      let start = drop-word 4 (4 + length (encode_fields fields)) (encode_fields fields) in
      let known = encode_fields-Ends fields [] h in
      let same = Ends-unique (parse_round rfc3339) (rw start at ends) known in rw (result, same)

  -- A document whose names have no zero byte and whose values fit in their types is parsed to its fields,
  -- in order, with the values that Go has for them; of two fields with one name the later one is kept.
  pub parse_bson_document-encode_document :
      (fields : List (Bytes × Element))
      → All IsField fields
      → parse_bson_document rfc3339 (encode_document fields) ≡ some (fields_of rfc3339 fields [])
  unfolding parse_bson_document
  parse_bson_document-encode_document fields h =
      rw (parse_fields-encode_document fields h) (ground (arith, length-encode_document-le fields))
