-- ===== src/Verify/Mongo.antt =====
-- `verifyMongoArchive` and `formatBSONSample` of cmd/marmot/cmd/verify.go.
pub mod Names
pub mod Invariant
pub mod Terminates
pub mod Documents
pub mod Rows
use marmot_cli.Common.{
  ℕ, suc, ◌+◌, ◌-◌, ◌*◌, Bool, true, false, ◌||◌, List, [], ◌∷◌, ◌++◌, Option, none, some, Bytes,
  codes, text_eq, is_empty, decimal, Result, ok, ◌>>=◌, ltb, leb, length, take, drop, ℤ, pos,
  negsuc, if◌then◌else◌, ◌==◌, repeat,
}
use marmot_cli.Streams.{Reader, read_all}
use marmot_cli.S3.Key.{split_first}
use marmot_cli.Verify.Bson.{
  Value, uint64, text, bool, int32, int64, Document, field, little_endian, parse_bson_document,
}
use marmot_cli.Verify.Report.{
  CollectionInfo, SampleEntry, VerifyReport, empty_report, truncate_string,
}

-- `%d`
signed_decimal : ℤ → Bytes
signed_decimal (pos n) = decimal n
signed_decimal (negsuc n) = b'-' ∷ decimal (suc n)

-- `%v`
unfoldable pub value_text : Value → Bytes
unfolding signed_decimal
value_text (uint64 n) = decimal n
value_text (text s) = s
value_text (bool true) = codes "true"
value_text (bool false) = codes "false"
value_text (int32 n) = signed_decimal n
value_text (int64 n) = signed_decimal n

-- `name: value`, the value in 50 bytes at most.
unfoldable pub sample_part : Bytes × Value → Bytes
unfolding truncate_string
sample_part (name, v) = name ++ codes ": " ++ truncate_string (value_text v) 50

-- The first `n` fields in the order of the iteration, and dots where there are more.
unfoldable pub sample_parts : ℕ → Document → List Bytes
unfolding sample_part
sample_parts n [] = []
sample_parts ℕ.zero (f ∷ fs) = codes "..." ∷ []
sample_parts (suc n) (f ∷ fs) = sample_part f ∷ sample_parts n fs

-- `strings.Join(parts, ", ")`
joined : List Bytes → Bytes
joined [] = []
joined (p ∷ []) = p
joined (p ∷ q ∷ ps) = p ++ codes ", " ++ joined (q ∷ ps)

-- The map that holds a collection for each name.
unfoldable pub has_collection : Bytes → List CollectionInfo → Bool
has_collection name [] = false
has_collection name (c ∷ cs) = if text_eq c.name name then true else has_collection name cs

-- One more row in each entry of the name, of which the map has one at most.
unfoldable pub count_named : Bytes → List CollectionInfo → List CollectionInfo
count_named name [] = []
count_named name (c ∷ cs) =
    let rest = count_named name cs in
    if text_eq c.name name then record c { row_count = c.row_count + 1 } ∷ rest else c ∷ rest

unfoldable pub last_name : List CollectionInfo → Option Bytes
last_name [] = none
last_name (c ∷ []) = some c.name
last_name (c ∷ d ∷ cs) = last_name (d ∷ cs)

-- `report.Collections[lastIdx].RowCount++`
unfoldable pub count_last : List CollectionInfo → List CollectionInfo
count_last [] = []
count_last (c ∷ []) = record c { row_count = c.row_count + 1 } ∷ []
count_last (c ∷ d ∷ cs) = c ∷ count_last (d ∷ cs)

-- Where the loop over the archive is: the bytes from `offset` on, the report, and the map
-- `collections`. `crashed` says that a row was counted through a pointer that the map does not have.
pub record Scan : Type 0 where
  pub rest : Bytes
  pub report : VerifyReport
  pub collections : List CollectionInfo
  pub crashed : Bool

-- The collection of the namespace `db.collection`, if it is new.
unfoldable pub add_collection : Option (Bytes × Bytes) → Scan → Scan
unfolding has_collection
add_collection none s = s
add_collection (some (db, name)) s =
    let c : CollectionInfo = record { name = name; row_count = 0; size = 0 } in
    if has_collection name s.collections then s else record s {
      report = record s.report {
        structure_count = s.report.structure_count + 1;
        collections = s.report.collections ++ c ∷ [];
      };
      collections = s.collections ++ c ∷ [];
    }

unfoldable pub add_metadata : Option Value → Scan → Scan
unfolding add_collection split_first
add_metadata (some (text ns)) s = if is_empty ns then s else add_collection (split_first b'.' ns) s
add_metadata other s = s

-- The row in the last collection, in the report's copy of it and in the map's.
unfoldable pub count_row : Option Bytes → Scan → Scan
unfolding has_collection count_named count_last
count_row none s = s
count_row (some name) s = record s {
  report = record s.report { collections = count_last s.report.collections };
  collections = count_named name s.collections;
  crashed = s.crashed || (if has_collection name s.collections then false else true);
}

-- A sample of the last collection, while there are less than three times as many as collections.
unfoldable pub add_sample : Bytes → Option Bytes → VerifyReport → VerifyReport
add_sample sample none r = r
add_sample sample (some name) r =
    if ltb (length r.sample_data) (3 * length r.collections)
    then record r {
      sample_data = r.sample_data ++ record { collection = name; content = sample } ∷ [];
    }
    else r

-- The order in which a map is iterated, and how a time is formatted.
module _ (order : Document → Document) (rfc3339 : ℤ → ℤ → Bytes) where
  unfoldable pub format_bson_sample : Document → Bytes
  unfolding sample_parts joined
  format_bson_sample doc = codes "{" ++ joined (sample_parts 5 (order doc)) ++ codes "}"

  -- A document with an `_id` is a row.
  unfoldable pub add_row : Option Value → Document → Scan → Scan
  unfolding count_row add_sample last_name format_bson_sample
  add_row none doc s = s
  add_row (some id) doc s =
      let found = record s { report = record s.report { total_rows = s.report.total_rows + 1 } } in
      let t = count_row (last_name s.report.collections) found in
      record t {
        report = add_sample (format_bson_sample doc) (last_name t.report.collections) t.report;
      }

  unfoldable pub add_document : Option Document → Scan → Scan
  unfolding add_metadata add_row field
  add_document none s = s
  add_document (some doc) s =
      add_row (field (codes "_id") doc) doc (add_metadata (field (codes "ns") doc) s)

  -- A document of so many bytes, or a byte that starts none.
  unfoldable pub scan_document : ℕ → Scan → Scan
  unfolding add_document parse_bson_document
  scan_document doc_len s =
      if leb doc_len 0 || (ltb (16 * 1024 * 1024) doc_len || ltb (length s.rest) doc_len)
      then record s { rest = drop 1 s.rest }
      else record (add_document (parse_bson_document rfc3339 (take doc_len s.rest)) s) {
        rest = drop doc_len s.rest;
      }

  unfoldable pub scan_round : Scan → Option Scan
  unfolding scan_document little_endian
  scan_round s =
      if s.crashed || leb (length s.rest) 4
      then none
      else some (scan_document (little_endian (take 4 s.rest)) s)

  -- Each round takes a byte at least.
  unfoldable pub scan_archive : Bytes → Scan
  unfolding scan_round
  scan_archive bytes = repeat scan_round (length bytes) (record {
    rest = bytes;
    report = empty_report (codes "mongo");
    collections = [];
    crashed = false;
  })

  -- The error is that of the reader.
  unfoldable pub verify_mongo_archive : Reader → Result Bytes VerifyReport
  unfolding scan_archive
  verify_mongo_archive r = do bytes ← read_all r; ok (scan_archive bytes).report
