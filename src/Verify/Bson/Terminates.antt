-- ===== src/Verify/Bson/Terminates.antt =====
-- The loop of `parseBSONDocument` ends: each round takes the type and the end of a name at least.
use marmot_cli.Common.{
  ℕ, suc, ◌≤◌, ◌<◌, ◌≡◌, [], ◌∷◌, Option, none, some, arith, Bytes, length, length-drop, take, drop,
  ℤ, repeat, repeat-Ends, Ends, refl,
}
use marmot_cli.Verify.Bson.{
  Value, Document, Parse, with_byte, field_name, fixed, string_body, read_string, read_value,
  add_field, next_field, parse_round, parse_fields, little_endian,
}

-- The bytes behind the name, if there is one, are fewer.
IsShorter : ℕ → Option (Bytes × Bytes) → Type 0
IsShorter k none = Unit
IsShorter k (some (name, after)) = length after < k

with_byte-IsShorter :
    (b k : ℕ) (o : Option (Bytes × Bytes)) → IsShorter k o → IsShorter (suc k) (with_byte b o)
unfolding with_byte IsShorter
with_byte-IsShorter b k none h = tt
with_byte-IsShorter b k (some (n, a)) h = omega arith

field_name-IsShorter : (bs : Bytes) → IsShorter (length bs) (field_name bs)
unfolding field_name IsShorter
field_name-IsShorter [] = tt
field_name-IsShorter (b ∷ bs) =
    ground (arith, with_byte-IsShorter b (length bs) (field_name bs) (field_name-IsShorter bs))

fixed-le : (n : ℕ) (f : Bytes → Value) (rest : Bytes) → length (fixed n f rest).1 ≤ length rest
unfolding fixed
fixed-le n f rest = ground (arith, length-drop n rest)

read_string-le : (rest : Bytes) → length (read_string rest).1 ≤ length rest
unfolding read_string string_body
read_string-le rest =
    let n = little_endian (take 4 rest) in
    ground (arith, length-drop 4 rest, length-drop n (drop 4 rest))

module _ (rfc3339 : ℤ → ℤ → Bytes) where
  -- The bytes that are left behind a value are no more than there were.
  read_value-le : (t : ℕ) (rest : Bytes) → length (read_value rfc3339 t rest).1 ≤ length rest
  unfolding read_value
  read_value-le t rest = ground (arith, fixed-le 8 _ rest, read_string-le rest)

  add_field-lower :
      (t k : ℕ) (o : Option (Bytes × Bytes)) (doc : Document) {p : Parse}
      → IsShorter k o
      → add_field rfc3339 t o doc ≡ some p
      → length p.rest < k
  unfolding add_field IsShorter
  add_field-lower t k none doc h e = cc
  add_field-lower t k (some (name, after)) doc h e = ground (arith, read_value-le t after)

  next_field-lower :
      (bs : Bytes) (doc : Document) {p : Parse}
      → next_field rfc3339 bs doc ≡ some p
      → length p.rest < length bs
  unfolding next_field
  next_field-lower [] doc e = cc
  next_field-lower (t ∷ []) doc e = cc
  next_field-lower (t ∷ b ∷ bs) doc {p} e = ground (
    arith,
    add_field-lower t (length (b ∷ bs)) (field_name (b ∷ bs)) doc {p = p}
        (field_name-IsShorter (b ∷ bs)),
  )

  parse_round-lower : (s t : Parse) → parse_round rfc3339 s ≡ some t → length t.rest < length s.rest
  parse_round-lower s t e = next_field-lower s.rest s.doc e

  -- The loop over the fields ends on any bytes, and where it ends is what `parse_fields` returns.
  pub parse_fields-Ends :
      (bytes : Bytes)
      → (last : Parse) × Ends (parse_round rfc3339) (record { rest = drop 4 bytes; doc = [] }) last
        × (parse_fields rfc3339 bytes ≡ last.doc)
  unfolding parse_fields
  parse_fields-Ends bytes = (
    repeat (parse_round rfc3339) (length bytes) (record { rest = drop 4 bytes; doc = [] }),
    repeat-Ends (parse_round rfc3339) (λ p. length p.rest) parse_round-lower (length bytes) _
        (omega (arith, length-drop 4 bytes)),
    refl,
  )
