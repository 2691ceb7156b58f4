-- ===== src/Verify/Mongo/Terminates.antt =====
-- The loop of `verifyMongoArchive` ends, on any bytes.
use marmot_cli.Common.{
  ℕ, ◌<◌, ◌≡◌, refl, subst, false, [], some, arith, Bytes, codes, ok, >>=-eq-ok, ℤ, length,
  length-drop, repeat, Ends, repeat-Ends, repeat-keeps,
}
use marmot_cli.Streams.{Reader, reader, read_all}
use marmot_cli.Verify.Bson.{Document}
use marmot_cli.Verify.Report.{VerifyReport, empty_report}
use marmot_cli.Verify.Mongo.{Scan, scan_document, scan_round, scan_archive, verify_mongo_archive}
use marmot_cli.Verify.Mongo.Invariant.{IsConsistent, IsScan, scan_round-eq-some, scan_round-IsScan}

-- Before the first round.
abbrev pub start : Bytes → Scan
start bytes = record {
  rest = bytes;
  report = empty_report (codes "mongo");
  collections = [];
  crashed = false;
}

pub start-IsScan : (bytes : Bytes) → IsScan (start bytes)
start-IsScan bytes = record {
  consistent = record {
    structures = refl;
    rows = omega arith;
    samples = omega arith;
    sampled_rows = omega arith;
    distinct = tt;
    passed = refl;
  };
  same_names = refl;
  running = refl;
}

module _ (order : Document → Document) (rfc3339 : ℤ → ℤ → Bytes) where
  scan_document-lower :
      (n : ℕ) (s : Scan)
      → 4 < length s.rest
      → length (scan_document order rfc3339 n s).rest < length s.rest
  unfolding scan_document
  scan_document-lower n s h = ground (arith, length-drop n s.rest, length-drop 1 s.rest)

  scan_round-lower :
      (s t : Scan) → scan_round order rfc3339 s ≡ some t → length t.rest < length s.rest
  scan_round-lower s t e =
      let (more, step) = scan_round-eq-some order rfc3339 s t e in
      subst (λ u. length u.rest < length s.rest) step (scan_document-lower _ s more)

  -- On any bytes the loop over the archive, whose rounds are not bounded, ends; the report where it ends is
  -- returned, and no row was counted through a pointer that the map does not have.
  pub verify_mongo_archive-Ends :
      (bytes : Bytes)
      → (last : Scan) × Ends (scan_round order rfc3339) (start bytes) last
        × (verify_mongo_archive order rfc3339 (reader bytes) ≡ ok last.report)
        × (last.crashed ≡ false)
  unfolding verify_mongo_archive read_all scan_archive
  verify_mongo_archive-Ends bytes =
      let kept =
        repeat-keeps (scan_round order rfc3339) IsScan (scan_round-IsScan order rfc3339)
          (length bytes) (start bytes) (start-IsScan bytes) in
      (
        repeat (scan_round order rfc3339) (length bytes) (start bytes),
        repeat-Ends (scan_round order rfc3339) (λ s. length s.rest) scan_round-lower (length bytes)
            (start bytes) (omega arith),
        refl,
        kept.running,
      )

  pub scan_archive-IsConsistent :
      (bytes : Bytes) → IsConsistent (scan_archive order rfc3339 bytes).report
  unfolding scan_archive
  scan_archive-IsConsistent bytes =
      let kept =
        repeat-keeps (scan_round order rfc3339) IsScan (scan_round-IsScan order rfc3339)
          (length bytes) (start bytes) (start-IsScan bytes) in
      kept.consistent

  -- Whatever the archive holds, a report that is returned lists each collection once and counts it, the
  -- rows of its collections are at most the rows in all, the samples of all collections together are at most
  -- three times as many as the collections and at most as many as the rows, and the status is `PASSED`.
  pub verify_mongo_archive-IsConsistent :
      (r : Reader) {report : VerifyReport}
      → verify_mongo_archive order rfc3339 r ≡ ok report
      → IsConsistent report
  unfolding verify_mongo_archive
  verify_mongo_archive-IsConsistent r {report} e =
      let (bytes, read, made) =
        >>=-eq-ok (read_all r) (λ bs. ok (scan_archive order rfc3339 bs).report) e in
      let same : (scan_archive order rfc3339 bytes).report ≡ report = cc in
      subst IsConsistent same (scan_archive-IsConsistent bytes)
