-- ===== src/Verify/Mongo/Documents.antt =====
-- An archive of documents, one behind the other.
use marmot_cli.Common.{
  ◌+◌, ◌≤◌, ◌<◌, ◌≡◌, ◌*◌, refl, sym, ◌∙◌, false, List, [], ◌∷◌, ◌++◌, some, none, arith, Bytes, ℤ,
  length, length-append, take, append_assoc, take-append, drop-append, All, Ends, exit, again, leb,
  ◌||◌,
}
use marmot_cli.Verify.Bson.{Document, little_endian}
use marmot_cli.Verify.Bson.Encode.{
  Element, IsField, word, encode_document, encode_fields, fields_of,
}
use marmot_cli.Verify.Bson.RoundTrip.{
  take-word, little_endian-word, length-word, length-encode_document-le,
  parse_bson_document-encode_document,
}
use marmot_cli.Verify.Mongo.{Scan, add_document, scan_document, scan_round}
use marmot_cli.Verify.Mongo.Invariant.{IsScan, scan_round-IsScan}

-- The fields of each document of an archive.
abbrev pub Archive : Type 0
Archive = List (List (Bytes × Element))

unfoldable pub archive_bytes : Archive → Bytes
archive_bytes [] = []
archive_bytes (d ∷ ds) = encode_document d ++ archive_bytes ds

-- Its fields are written as they are, in 16 MiB at most.
abbrev pub IsSmall : List (Bytes × Element) → Type 0
IsSmall d = All IsField d × (length (encode_document d) ≤ 16 * 1024 * 1024)

encode_document_lem :
    (d : List (Bytes × Element))
    → encode_document d ≡ word 4 (4 + length (encode_fields d)) ++ encode_fields d
unfolding encode_document
encode_document_lem d = refl

length-encode_document :
    (d : List (Bytes × Element)) → length (encode_document d) ≡ 4 + length (encode_fields d)
length-encode_document d =
    let n = 4 + length (encode_fields d) in
    rw (encode_document_lem d)
      (omega (arith, length-append (word 4 n) (encode_fields d), length-word 4 n))

-- The first four bytes of a document are its length.
length_read :
    (d : List (Bytes × Element)) (rest : Bytes)
    → IsSmall d
    → little_endian (take 4 (encode_document d ++ rest)) ≡ length (encode_document d)
length_read d rest (fields, small) =
    let n = 4 + length (encode_fields d) in
    let whole : n ≡ length (encode_document d) = sym (length-encode_document d) in
    let apart : take 4 (encode_document d ++ rest) ≡ word 4 n = rw (encode_document_lem d) (
      rw (append_assoc (word 4 n) (encode_fields d) rest)
        (take-word 4 n (encode_fields d ++ rest))) in
    rw apart (little_endian-word 4 n (omega (arith, small, whole)) ∙ whole)

module _ (order : Document → Document) (rfc3339 : ℤ → ℤ → Bytes) where
  scan_document-take :
      (d : List (Bytes × Element)) (s : Scan) (rest : Bytes)
      → IsSmall d
      → s.rest ≡ encode_document d ++ rest
      → scan_document order rfc3339 (length (encode_document d)) s
        ≡ record (add_document order rfc3339 (some (fields_of rfc3339 d [])) s) { rest = rest }
  unfolding scan_document
  scan_document-take d s rest (fields, small) e =
      let parsed = parse_bson_document-encode_document rfc3339 d fields in
      rw (e, take-append (encode_document d) rest, drop-append (encode_document d) rest, parsed)
        (ground (arith, length-append (encode_document d) rest, length-encode_document-le d))

  -- One document behind the other, and the bytes that are left behind each.
  unfoldable pub read_documents : Archive → Scan → Scan
  unfolding archive_bytes
  read_documents [] s = s
  read_documents (d ∷ ds) s =
      read_documents ds (record (add_document order rfc3339 (some (fields_of rfc3339 d [])) s) {
        rest = archive_bytes ds;
      })

  scan_round-take :
      (d : List (Bytes × Element)) (s : Scan) (rest : Bytes)
      → IsSmall d
      → s.crashed ≡ false
      → s.rest ≡ encode_document d ++ rest
      → scan_round order rfc3339 s
        ≡ some
            (record (add_document order rfc3339 (some (fields_of rfc3339 d [])) s) { rest = rest })
  unfolding scan_round
  scan_round-take d s rest small running e =
      let step = scan_document-take d s rest small e in
      let size : little_endian (take 4 s.rest) ≡ length (encode_document d) =
        rw e (length_read d rest small) in
      let long : 4 < length s.rest =
        rw e (omega (arith, length-append (encode_document d) rest, length-encode_document-le d)) in
      let go_on : (s.crashed || leb (length s.rest) 4) ≡ false =
        rw running (ground (arith, long)) in
      rw (go_on, size, step)

  scan_round-end : (s : Scan) → s.rest ≡ [] → scan_round order rfc3339 s ≡ none
  unfolding scan_round
  scan_round-end s e = rw e (ground arith)

  pub read_documents-Ends :
      (ds : Archive) (s : Scan)
      → All IsSmall ds
      → IsScan s
      → s.rest ≡ archive_bytes ds
      → Ends (scan_round order rfc3339) s (read_documents ds s)
  unfolding read_documents archive_bytes
  read_documents-Ends [] s small h e = exit (scan_round-end s e)
  read_documents-Ends (d ∷ ds) s (small, others) h e =
      let step = scan_round-take d s (archive_bytes ds) small h.running e in
      again step (read_documents-Ends ds _ others (scan_round-IsScan order rfc3339 s _ step h) refl)
