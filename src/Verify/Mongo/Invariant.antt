-- ===== src/Verify/Mongo/Invariant.antt =====
-- What every round of `verifyMongoArchive` keeps: the report agrees with itself, and the map has each
-- collection of the report.
use marmot_cli.Common.{
  ℕ, ◌+◌, ◌*◌, ◌≤◌, ◌<◌, ◌≡◌, refl, ap, sym, subst, ◌∙◌, false, [], ◌∷◌, ◌++◌, Option, none, some,
  arith, Bytes, codes, is_empty, length, length-append, ℤ, Bool-cases, inl, inr, ltb, leb, take,
  drop, ◌||◌,
}
use marmot_cli.S3.Key.{split_first}
use marmot_cli.Verify.Bson.{
  Value, uint64, text, bool, int32, int64, Document, field, little_endian, parse_bson_document,
}
use marmot_cli.Verify.Report.{CollectionInfo, SampleEntry, VerifyReport, counted}
use marmot_cli.Verify.Mongo.{
  Scan, has_collection, last_name, count_last, add_collection, add_metadata, count_row, add_sample,
  add_row, add_document, scan_document, scan_round, format_bson_sample,
}
use marmot_cli.Verify.Mongo.Names.{
  names, IsDistinct, names-append, names-count_named, names-count_last, length-count_last,
  counted-append, counted-count_last, has_collection-names, has_collection-last_name,
  IsDistinct-names, IsDistinct-append,
}

-- Each collection is listed and counted once, the rows of the collections are rows of the archive, of which
-- there are samples, three for each collection at most.
pub record IsConsistent (r : VerifyReport) : Type 0 where
  pub structures : r.structure_count ≡ length r.collections
  pub rows : counted r.collections ≤ r.total_rows
  pub samples : length r.sample_data ≤ 3 * length r.collections
  pub sampled_rows : length r.sample_data ≤ r.total_rows
  pub distinct : IsDistinct r.collections
  pub passed : r.integrity_status ≡ codes "PASSED"

pub record IsScan (s : Scan) : Type 0 where
  pub consistent : IsConsistent s.report
  pub same_names : names s.collections ≡ names s.report.collections
  pub running : s.crashed ≡ false

add_collection-IsScan :
    (o : Option (Bytes × Bytes)) {s : Scan} → IsScan s → IsScan (add_collection o s)
unfolding add_collection
add_collection-IsScan none h = h
add_collection-IsScan (some (db, name)) {s} h =
    let c : CollectionInfo = record { name = name; row_count = 0; size = 0 } in
    elim (Bool-cases (has_collection name s.collections)) [
      | inl old ↦ rw old h
      | inr new ↦
          let same = has_collection-names name s.collections s.report.collections h.same_names in
          rw new (record {
            consistent = record {
              structures =
                  omega
                    (arith, h.consistent.structures, length-append s.report.collections (c ∷ []));
              rows = omega (arith, h.consistent.rows, counted-append s.report.collections (c ∷ []));
              samples =
                  omega (arith, h.consistent.samples, length-append s.report.collections (c ∷ []));
              sampled_rows = h.consistent.sampled_rows;
              distinct =
                  IsDistinct-append c s.report.collections h.consistent.distinct (sym same ∙ new);
              passed = h.consistent.passed;
            };
            same_names =
                names-append s.collections (c ∷ [])
                ∙ ap (λ ns. ns ++ name ∷ []) h.same_names
                ∙ sym (names-append s.report.collections (c ∷ []));
            running = h.running;
          })
    ]

add_metadata-IsScan : (v : Option Value) {s : Scan} → IsScan s → IsScan (add_metadata v s)
unfolding add_metadata
add_metadata-IsScan (some (text ns)) h = elim (Bool-cases (is_empty ns)) [
  | inl e ↦ rw e h
  | inr e ↦ rw e (add_collection-IsScan (split_first b'.' ns) h)
]
add_metadata-IsScan none h = h
add_metadata-IsScan (some (uint64 n)) h = h
add_metadata-IsScan (some (bool b)) h = h
add_metadata-IsScan (some (int32 n)) h = h
add_metadata-IsScan (some (int64 n)) h = h

-- Another row, in no collection yet.
found : Scan → Scan
found s = record s { report = record s.report { total_rows = s.report.total_rows + 1 } }

count_row-none : {s : Scan} → IsScan s → IsScan (found s)
unfolding found
count_row-none h = record {
  consistent = record {
    structures = h.consistent.structures;
    rows = omega (arith, h.consistent.rows);
    samples = h.consistent.samples;
    sampled_rows = omega (arith, h.consistent.sampled_rows);
    distinct = h.consistent.distinct;
    passed = h.consistent.passed;
  };
  same_names = h.same_names;
  running = h.running;
}

count_row-IsScan :
    (o : Option Bytes) {s : Scan}
    → IsScan s
    → last_name s.report.collections ≡ o
    → IsScan (count_row o (found s))
unfolding count_row found
count_row-IsScan none {s} h e = count_row-none h
count_row-IsScan (some name) {s} h e =
    let cs = s.report.collections in
    let there =
      has_collection-names name s.collections cs h.same_names
      ∙ has_collection-last_name name cs e in
    record {
      consistent = record {
        structures = h.consistent.structures ∙ sym (length-count_last cs);
        rows = omega (arith, h.consistent.rows, counted-count_last cs);
        samples = omega (arith, h.consistent.samples, length-count_last cs);
        sampled_rows = omega (arith, h.consistent.sampled_rows);
        distinct =
            IsDistinct-names cs (count_last cs) (sym (names-count_last cs)) h.consistent.distinct;
        passed = h.consistent.passed;
      };
      same_names = names-count_named name s.collections ∙ h.same_names ∙ sym (names-count_last cs);
      running = rw (there, h.running);
    }

count_row-samples :
    (o : Option Bytes) (s : Scan)
    → ((count_row o (found s)).report.sample_data ≡ s.report.sample_data)
      × ((count_row o (found s)).report.total_rows ≡ s.report.total_rows + 1)
unfolding count_row found
count_row-samples none s = (refl, refl)
count_row-samples (some name) s = (refl, refl)

abbrev entry : Bytes → Bytes → SampleEntry
entry name sample = record { collection = name; content = sample }

add_sample-IsConsistent :
    (sample : Bytes) (o : Option Bytes) {r : VerifyReport}
    → IsConsistent r
    → length r.sample_data < r.total_rows
    → IsConsistent (add_sample sample o r)
      × (names (add_sample sample o r).collections ≡ names r.collections)
unfolding add_sample
add_sample-IsConsistent sample none h more = (h, refl)
add_sample-IsConsistent sample (some name) {r} h more =
    elim (Bool-cases (ltb (length r.sample_data) (3 * length r.collections))) [
      | inr full ↦ rw full (h, refl)
      | inl room ↦ rw room (
        record {
          structures = h.structures;
          rows = h.rows;
          samples = ground (arith, length-append r.sample_data (entry name sample ∷ []));
          sampled_rows = omega (arith, more, length-append r.sample_data (entry name sample ∷ []));
          distinct = h.distinct;
          passed = h.passed;
        },
        refl,
      )
    ]

module _ (order : Document → Document) (rfc3339 : ℤ → ℤ → Bytes) where
  add_row-IsScan :
      (o : Option Value) (doc : Document) {s : Scan}
      → IsScan s
      → IsScan (add_row order rfc3339 o doc s)
  unfolding add_row found
  add_row-IsScan none doc h = h
  add_row-IsScan (some id) doc {s} h =
      let last = last_name s.report.collections in
      let t = count_row last (found s) in
      let kept = count_row-IsScan last h refl in
      let (same, one_more) = count_row-samples last s in
      let (consistent, named) =
        add_sample-IsConsistent (format_bson_sample order rfc3339 doc)
          (last_name t.report.collections) kept.consistent
          (omega (arith, ap (λ xs. length xs) same, one_more, h.consistent.sampled_rows)) in
      record {
        consistent = consistent;
        same_names = kept.same_names ∙ sym named;
        running = kept.running;
      }

  add_document-IsScan :
      (o : Option Document) {s : Scan} → IsScan s → IsScan (add_document order rfc3339 o s)
  unfolding add_document
  add_document-IsScan none h = h
  add_document-IsScan (some doc) h =
      add_row-IsScan (field (codes "_id") doc) doc (add_metadata-IsScan (field (codes "ns") doc) h)

  moved : {s : Scan} (bytes : Bytes) → IsScan s → IsScan (record s { rest = bytes })
  moved bytes h = record {
    consistent = h.consistent;
    same_names = h.same_names;
    running = h.running;
  }

  scan_document-IsScan : (n : ℕ) {s : Scan} → IsScan s → IsScan (scan_document order rfc3339 n s)
  unfolding scan_document
  scan_document-IsScan n {s} h =
      elim (Bool-cases (leb n 0 || (ltb (16 * 1024 * 1024) n || ltb (length s.rest) n))) [
        | inl bad ↦ rw bad (moved (drop 1 s.rest) h)
        | inr good ↦ rw good (
            moved (drop n s.rest)
              (add_document-IsScan (parse_bson_document rfc3339 (take n s.rest)) h))
      ]

  pub scan_round-eq-some :
      (s t : Scan)
      → scan_round order rfc3339 s ≡ some t
      → (4 < length s.rest) × (scan_document order rfc3339 (little_endian (take 4 s.rest)) s ≡ t)
  unfolding scan_round
  scan_round-eq-some s t e = ground arith

  pub scan_round-IsScan : (s t : Scan) → scan_round order rfc3339 s ≡ some t → IsScan s → IsScan t
  scan_round-IsScan s t e h =
      let (more, step) = scan_round-eq-some s t e in
      subst IsScan step (scan_document-IsScan (little_endian (take 4 s.rest)) h)
