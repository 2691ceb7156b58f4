-- ===== src/Verify/Mongo/Rows.antt =====
-- The rows that the report counts in an archive of documents.
use marmot_cli.Common.{
  ℕ, ◌+◌, ◌≡◌, refl, Bool, true, false, ◌||◌, List, [], ◌∷◌, Option, some, none, arith, Bytes,
  codes, ok, ℤ, text_eq, text_eq_iff, All, if◌then◌else◌, Ends-unique,
}
use marmot_cli.Streams.{reader}
use marmot_cli.S3.Key.{split_first}
use marmot_cli.Verify.Bson.{Value, uint64, text, bool, int32, int64, Document, put_field, field}
use marmot_cli.Verify.Bson.Encode.{Element, fields_of, go_value}
use marmot_cli.Verify.Report.{VerifyReport}
use marmot_cli.Verify.Mongo.{
  Scan, add_collection, add_metadata, count_row, last_name, add_sample, add_row, add_document,
  scan_round, format_bson_sample, verify_mongo_archive,
}
use marmot_cli.Verify.Mongo.Terminates.{start, start-IsScan, verify_mongo_archive-Ends}
use marmot_cli.Verify.Mongo.Documents.{
  Archive, IsSmall, archive_bytes, read_documents, read_documents-Ends,
}

-- Whether a field has the name.
unfoldable pub has_field : Bytes → List (Bytes × Element) → Bool
has_field name [] = false
has_field name ((other, e) ∷ fields) = text_eq other name || has_field name fields

-- The documents that have an `_id`.
unfoldable pub rows_of : Archive → ℕ
rows_of [] = 0
rows_of (d ∷ ds) = (if has_field (codes "_id") d then 1 else 0) + rows_of ds

is_there : Option Value → Bool
is_there none = false
is_there (some v) = true

field-put_field :
    (n m : Bytes) (v : Value) (doc : Document)
    → is_there (field n (put_field m v doc)) ≡ (text_eq m n || is_there (field n doc))
unfolding field put_field is_there
field-put_field n m v [] = ground (arith, text_eq_iff m n)
field-put_field n m v ((other, w) ∷ doc) =
    ground
      (arith, text_eq_iff m n, text_eq_iff other m, text_eq_iff other n, field-put_field n m v doc)

add_collection-rows :
    (o : Option (Bytes × Bytes)) (s : Scan)
    → (add_collection o s).report.total_rows ≡ s.report.total_rows
unfolding add_collection
add_collection-rows none s = refl
add_collection-rows (some (db, name)) s = ground arith

add_metadata-rows :
    (v : Option Value) (s : Scan) → (add_metadata v s).report.total_rows ≡ s.report.total_rows
unfolding add_metadata
add_metadata-rows (some (text ns)) s = ground (arith, add_collection-rows (split_first b'.' ns) s)
add_metadata-rows none s = refl
add_metadata-rows (some (uint64 n)) s = refl
add_metadata-rows (some (bool b)) s = refl
add_metadata-rows (some (int32 n)) s = refl
add_metadata-rows (some (int64 n)) s = refl

count_row-rows :
    (o : Option Bytes) (s : Scan) → (count_row o s).report.total_rows ≡ s.report.total_rows
unfolding count_row
count_row-rows none s = refl
count_row-rows (some name) s = refl

add_sample-rows :
    (sample : Bytes) (o : Option Bytes) (r : VerifyReport)
    → (add_sample sample o r).total_rows ≡ r.total_rows
unfolding add_sample
add_sample-rows sample none r = refl
add_sample-rows sample (some name) r = ground arith

module _ (order : Document → Document) (rfc3339 : ℤ → ℤ → Bytes) where
  field-fields_of :
      (n : Bytes) (d : List (Bytes × Element)) (doc : Document)
      → is_there (field n (fields_of rfc3339 d doc)) ≡ (has_field n d || is_there (field n doc))
  unfolding fields_of has_field
  field-fields_of n [] doc = refl
  field-fields_of n ((m, e) ∷ d) doc = ground (
    arith,
    field-fields_of n d (put_field m (go_value rfc3339 e) doc),
    field-put_field n m (go_value rfc3339 e) doc,
  )

  field-there :
      (n : Bytes) (d : List (Bytes × Element))
      → is_there (field n (fields_of rfc3339 d [])) ≡ has_field n d
  unfolding field is_there
  field-there n d = ground (arith, field-fields_of n d [])

  add_row-rows :
      (o : Option Value) (doc : Document) (s : Scan)
      → (add_row order rfc3339 o doc s).report.total_rows
        ≡ (if is_there o then 1 else 0) + s.report.total_rows
  unfolding add_row is_there
  add_row-rows none doc s = omega arith
  add_row-rows (some id) doc s =
      let found = record s { report = record s.report { total_rows = s.report.total_rows + 1 } } in
      let t = count_row (last_name s.report.collections) found in
      omega (
        arith,
        add_sample-rows (format_bson_sample order rfc3339 doc) (last_name t.report.collections)
            t.report,
        count_row-rows (last_name s.report.collections) found,
      )

  add_document-rows :
      (d : List (Bytes × Element)) (s : Scan)
      → (add_document order rfc3339 (some (fields_of rfc3339 d [])) s).report.total_rows
        ≡ (if has_field (codes "_id") d then 1 else 0) + s.report.total_rows
  unfolding add_document
  add_document-rows d s =
      let doc = fields_of rfc3339 d [] in
      let t = add_metadata (field (codes "ns") doc) s in
      rw (add_row-rows (field (codes "_id") doc) doc t)
        (rw (field-there (codes "_id") d, add_metadata-rows (field (codes "ns") doc) s))

  read_documents-rows :
      (ds : Archive) (s : Scan)
      → (read_documents order rfc3339 ds s).report.total_rows ≡ rows_of ds + s.report.total_rows
  unfolding read_documents rows_of
  read_documents-rows [] s = omega arith
  read_documents-rows (d ∷ ds) s = omega (arith, read_documents-rows ds _, add_document-rows d s)

  -- Of an archive of documents, one behind the other, each in 16 MiB at most, every document is read, in
  -- order; the rows of the report are the documents that have a field `_id`.
  pub verify_mongo_archive-archive_bytes :
      (ds : Archive)
      → All IsSmall ds
      → (report : VerifyReport) × (verify_mongo_archive order rfc3339 (reader (archive_bytes ds))
          ≡ ok report)
        × (report ≡ (read_documents order rfc3339 ds (start (archive_bytes ds))).report)
        × (report.total_rows ≡ rows_of ds)
  verify_mongo_archive-archive_bytes ds small =
      let bytes = archive_bytes ds in
      let (last, ends, result, running) = verify_mongo_archive-Ends order rfc3339 bytes in
      let known =
        read_documents-Ends order rfc3339 ds (start bytes) small (start-IsScan bytes) refl in
      let same = Ends-unique (scan_round order rfc3339) ends known in
      let final = (read_documents order rfc3339 ds (start bytes)).report in
      (final, rw same at result, refl, omega (arith, read_documents-rows ds (start bytes)))
