-- ===== src/Verify/Examples.antt =====
-- An archive of two documents, a dump of two lines, and the theorems on what `marmot verify` reads at them.
use marmot_cli.Common.{
  ◌≡◌, ◌≤◌, ◌*◌, refl, ℕ, ℤ, false, List, [], ◌∷◌, some, arith, Bytes, codes, length, ok, Ends,
  text_eq, All, repeat,
}
use marmot_cli.Streams.{reader, read_all}
use marmot_cli.Verify.Bson.{Document, parse_bson_document}
use marmot_cli.Verify.Bson.Encode.{
  Element, string, int32_bits, boolean, IsField, encode_document, fields_of,
}
use marmot_cli.Verify.Bson.RoundTrip.{parse_bson_document-encode_document}
use marmot_cli.Verify.Report.{VerifyReport, empty_report}
use marmot_cli.Verify.Mongo.{Scan, scan_round, verify_mongo_archive}
use marmot_cli.Verify.Mongo.Invariant.{IsConsistent}
use marmot_cli.Verify.Mongo.Terminates.{
  start, verify_mongo_archive-Ends, verify_mongo_archive-IsConsistent,
}
use marmot_cli.Verify.Mongo.Documents.{Archive, archive_bytes, read_documents}
use marmot_cli.Verify.Mongo.Rows.{has_field, rows_of, verify_mongo_archive-archive_bytes}
use marmot_cli.Verify.Sql.{verify_sql_dump}
use marmot_cli.Verify.Sql.Pattern.{created_table, inserted_table}
use marmot_cli.Verify.Sql.Totals.{IsTotal, found_in, lines_of, verify_sql_dump-IsTotal}

abbrev as_it_is : Document → Document
as_it_is doc = doc

abbrev no_time : ℤ → ℤ → Bytes
no_time seconds nanoseconds = []

abbrev metadata : List (Bytes × Element)
metadata = (codes "ns", string (codes "s.a")) ∷ []

abbrev a_row : List (Bytes × Element)
a_row = (codes "_id", int32_bits 7) ∷ (codes "b", boolean false) ∷ []

abbrev two_documents : Archive
two_documents = metadata ∷ a_row ∷ []

metadata-fields : All IsField metadata
metadata-fields = (((ground arith, (ground arith, tt)), ground arith), tt)

a_row-fields : All IsField a_row
a_row-fields = (
  ((ground arith, (ground arith, (ground arith, tt))), ground arith),
  (((ground arith, tt), tt), tt),
)

metadata-small : length (encode_document metadata) ≤ 16 * 1024 * 1024
unfolding encode_document
metadata-small = omega arith

a_row-small : length (encode_document a_row) ≤ 16 * 1024 * 1024
unfolding encode_document
a_row-small = omega arith

one_row : rows_of two_documents ≡ 1
unfolding rows_of has_field text_eq
one_row = refl

verify_mongo_archive-archive_bytes_example :
    (report : VerifyReport) × (verify_mongo_archive as_it_is no_time
        (reader (archive_bytes two_documents))
      ≡ ok report)
    × (report
        ≡ (read_documents as_it_is no_time two_documents
            (start (archive_bytes two_documents))).report)
    × (report.total_rows ≡ rows_of two_documents)
verify_mongo_archive-archive_bytes_example =
    verify_mongo_archive-archive_bytes as_it_is no_time two_documents
      ((metadata-fields, metadata-small), ((a_row-fields, a_row-small), tt))

verify_mongo_archive-Ends_example :
    (last : Scan) × Ends (scan_round as_it_is no_time) (start (codes "no archive")) last
    × (verify_mongo_archive as_it_is no_time (reader (codes "no archive")) ≡ ok last.report)
    × (last.crashed ≡ false)
verify_mongo_archive-Ends_example = verify_mongo_archive-Ends as_it_is no_time (codes "no archive")

nothing_read :
    verify_mongo_archive as_it_is no_time (reader (codes "abc")) ≡ ok (empty_report (codes "mongo"))
unfolding verify_mongo_archive read_all repeat
nothing_read = refl

verify_mongo_archive-IsConsistent_example : IsConsistent (empty_report (codes "mongo"))
verify_mongo_archive-IsConsistent_example =
    verify_mongo_archive-IsConsistent as_it_is no_time (reader (codes "abc")) nothing_read

parse_bson_document-encode_document_example :
    parse_bson_document no_time (encode_document a_row) ≡ some (fields_of no_time a_row [])
parse_bson_document-encode_document_example =
    parse_bson_document-encode_document no_time a_row a_row-fields

abbrev one_table : Bytes
one_table = codes "CREATE TABLE a"

abbrev table_report : VerifyReport
table_report = record (empty_report (codes "mysql")) {
  structure_count = 1;
  collections = record { name = codes "a"; row_count = 0; size = 0 } ∷ [];
}

table_read : verify_sql_dump (codes "mysql") (reader one_table) ≡ ok table_report
unfolding verify_sql_dump created_table inserted_table
table_read = refl

verify_sql_dump-IsTotal_example :
    (samples : ℕ) × IsTotal
      (found_in created_table (lines_of one_table))
      (length (found_in inserted_table (lines_of one_table)))
      (record { report = table_report; sample_count = samples })
verify_sql_dump-IsTotal_example =
    verify_sql_dump-IsTotal (codes "mysql") (reader one_table) table_read
