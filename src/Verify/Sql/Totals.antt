-- ===== src/Verify/Sql/Totals.antt =====
-- What `verifySQLDump` counts in the lines of a dump.
use marmot_cli.Common.{
  ℕ, suc, ◌+◌, ◌*◌, ◌≤◌, ◌<◌, ◌≡◌, refl, ap, sym, ◌∙◌, subst, List, [], ◌∷◌, ◌++◌, Option, none,
  some, map, arith, Bytes, codes, ok, >>-eq-ok, fail_if->>-eq-ok, ltb, ltb→lt, Bool-cases, inl, inr,
  length, length-append, All, All-append, append_assoc, append-nil, any_of, ◌>>◌,
}
use marmot_cli.Streams.{Reader}
use marmot_cli.Agent.Backup.{unless}
use marmot_cli.Verify.Report.{CollectionInfo, SampleEntry, VerifyReport, counted, truncate_string}
use marmot_cli.Verify.Report.Bounds.{length-truncate_string}
use marmot_cli.Verify.Mongo.Names.{names, names-append, counted-append}
use marmot_cli.Verify.Sql.Pattern.{created_table, inserted_table}
use marmot_cli.Verify.Sql.{
  Counts, no_counts, count_table, add_table, add_sample, add_insert, scan_line, scan_all,
  split_lines, drop_return, is_too_long, verify_sql_dump,
}

-- The names that are added for a line.
abbrev name_list : Option Bytes → List Bytes
name_list none = []
name_list (some name) = name ∷ []

-- The names that a pattern finds, line by line.
unfoldable pub found_in : (Bytes → Option Bytes) → List Bytes → List Bytes
found_in find [] = []
found_in find (line ∷ lines) = name_list (find line) ++ found_in find lines

-- The report on a dump of which the lines had such tables and so many rows.
pub record IsTotal (tables : List Bytes) (rows : ℕ) (s : Counts) : Type 0 where
  pub listed : names s.report.collections ≡ tables
  pub structures : s.report.structure_count ≡ length s.report.collections
  pub total : s.report.total_rows ≡ rows
  pub attributed : counted s.report.collections ≤ rows
  pub sampled : s.sample_count ≡ length s.report.sample_data
  pub samples : s.sample_count ≤ 3 * s.report.structure_count
  pub sampled_rows : s.sample_count ≤ rows
  pub short : All (λ e. length e.content ≤ 200) s.report.sample_data
  pub passed : s.report.integrity_status ≡ codes "PASSED"

names-count_table : (n : Bytes) (cs : List CollectionInfo) → names (count_table n cs) ≡ names cs
unfolding count_table
names-count_table n [] = refl
names-count_table n (c ∷ cs) = ground (arith, names-count_table n cs)

length-count_table : (n : Bytes) (cs : List CollectionInfo) → length (count_table n cs) ≡ length cs
unfolding count_table
length-count_table n [] = refl
length-count_table n (c ∷ cs) = ground (arith, length-count_table n cs)

counted-count_table :
    (n : Bytes) (cs : List CollectionInfo) → counted (count_table n cs) ≤ counted cs + 1
unfolding count_table
counted-count_table n [] = omega arith
counted-count_table n (c ∷ cs) = ground (arith, counted-count_table n cs)

add_table-IsTotal :
    (o : Option Bytes) {tables : List Bytes} {rows : ℕ} {s : Counts}
    → IsTotal tables rows s
    → IsTotal (tables ++ name_list o) rows (add_table o s)
unfolding add_table
add_table-IsTotal none {tables} {rows} {s} h =
    subst (λ ts. IsTotal ts rows s) (sym (append-nil tables)) h
add_table-IsTotal (some name) {s} h =
    let c : CollectionInfo = record { name = name; row_count = 0; size = 0 } in
    let cs = s.report.collections in
    record {
      listed = names-append cs (c ∷ []) ∙ ap (λ ns. ns ++ name ∷ []) h.listed;
      structures = omega (arith, h.structures, length-append cs (c ∷ []));
      total = h.total;
      attributed = omega (arith, h.attributed, counted-append cs (c ∷ []));
      sampled = h.sampled;
      samples = omega (arith, h.samples);
      sampled_rows = h.sampled_rows;
      short = h.short;
      passed = h.passed;
    }

abbrev entry : Bytes → Bytes → SampleEntry
entry name line = record { collection = name; content = truncate_string line 200 }

add_sample-IsTotal :
    (name line : Bytes) {tables : List Bytes} {rows : ℕ} {s : Counts}
    → IsTotal tables rows s
    → s.sample_count < rows
    → IsTotal tables rows (add_sample name line s)
unfolding add_sample
add_sample-IsTotal name line {tables} {rows} {s} h more =
    elim (Bool-cases (ltb s.sample_count (3 * s.report.structure_count))) [
      | inr full ↦ rw full h
      | inl room ↦ rw room (record {
        listed = h.listed;
        structures = h.structures;
        total = h.total;
        attributed = h.attributed;
        sampled =
            omega (arith, h.sampled, length-append s.report.sample_data (entry name line ∷ []));
        samples = omega (arith, ltb→lt s.sample_count (3 * s.report.structure_count) room);
        sampled_rows = omega (arith, more);
        short =
            All-append (λ e. length e.content ≤ 200) s.report.sample_data (entry name line ∷ [])
              h.short (length-truncate_string line 200 (omega arith), tt);
        passed = h.passed;
      })
    ]

-- A row that is not sampled yet.
counted_row : Bytes → Counts → Counts
counted_row name s = record s {
  report = record s.report {
    total_rows = s.report.total_rows + 1;
    collections = count_table name s.report.collections;
  };
}

counted_row-IsTotal :
    (name : Bytes) {tables : List Bytes} {rows : ℕ} {s : Counts}
    → IsTotal tables rows s
    → IsTotal tables (suc rows) (counted_row name s)
unfolding counted_row
counted_row-IsTotal name {s} h =
    let cs = s.report.collections in
    record {
      listed = names-count_table name cs ∙ h.listed;
      structures = h.structures ∙ sym (length-count_table name cs);
      total = omega (arith, h.total);
      attributed = omega (arith, h.attributed, counted-count_table name cs);
      sampled = h.sampled;
      samples = h.samples;
      sampled_rows = omega (arith, h.sampled_rows);
      short = h.short;
      passed = h.passed;
    }

add_insert-IsTotal :
    (line : Bytes) (o : Option Bytes) {tables : List Bytes} {rows : ℕ} {s : Counts}
    → IsTotal tables rows s
    → IsTotal tables (length (name_list o) + rows) (add_insert line o s)
unfolding add_insert counted_row
add_insert-IsTotal line none {tables} {rows} {s} h = subst (λ n. IsTotal tables n s) (omega arith) h
add_insert-IsTotal line (some name) {tables} {rows} {s} h =
    subst (λ n. IsTotal tables n (add_sample name line (counted_row name s))) (omega arith)
      (add_sample-IsTotal name line (counted_row-IsTotal name h) (omega (arith, h.sampled_rows)))

scan_line-IsTotal :
    (line : Bytes) {tables : List Bytes} {rows : ℕ} {s : Counts}
    → IsTotal tables rows s
    → IsTotal
        (tables ++ name_list (created_table line))
        (length (name_list (inserted_table line)) + rows)
        (scan_line line s)
unfolding scan_line
scan_line-IsTotal line h =
    add_insert-IsTotal line (inserted_table line) (add_table-IsTotal (created_table line) h)

scan_all-IsTotal :
    (lines : List Bytes) {tables : List Bytes} {rows : ℕ} {s : Counts}
    → IsTotal tables rows s
    → IsTotal
        (tables ++ found_in created_table lines)
        (rows + length (found_in inserted_table lines))
        (scan_all lines s)
unfolding scan_all found_in
scan_all-IsTotal [] {tables} {rows} {s} h =
    subst (λ ts. IsTotal ts (rows + 0) s) (sym (append-nil tables))
      (subst (λ n. IsTotal tables n s) (omega arith) h)
scan_all-IsTotal (line ∷ lines) {tables} {rows} {s} h =
    let new = name_list (created_table line) in
    let filled = name_list (inserted_table line) in
    let later = found_in inserted_table lines in
    let ih = scan_all-IsTotal lines (scan_line-IsTotal line h) in
    let count : length filled + rows + length later ≡ rows + length (filled ++ later) =
      omega (arith, length-append filled later) in
    let last = scan_all lines (scan_line line s) in
    subst (λ n. IsTotal (tables ++ (new ++ found_in created_table lines)) n last) count
      (subst (λ ts. IsTotal ts (length filled + rows + length later) last)
        (append_assoc tables new (found_in created_table lines)) ih)

no_counts-IsTotal : (type : Bytes) → IsTotal [] 0 (no_counts type)
no_counts-IsTotal type = record {
  listed = refl;
  structures = refl;
  total = refl;
  attributed = omega arith;
  sampled = refl;
  samples = omega arith;
  sampled_rows = omega arith;
  short = tt;
  passed = refl;
}

-- The lines of the dump, without carriage returns at their ends.
abbrev pub lines_of : Bytes → List Bytes
lines_of bytes = map drop_return (split_lines bytes)

-- Where the dump is read to its end, the report lists the tables of the lines that create one, in order, and
-- counts them; it counts a row for each line that inserts; the rows of all tables together are at most those;
-- the samples of all tables together are at most three times as many as the tables and at most as many as the
-- rows, each of 200 bytes at most; and the status is `PASSED`.
pub verify_sql_dump-IsTotal :
    (type : Bytes) (r : Reader) {report : VerifyReport}
    → verify_sql_dump type r ≡ ok report
    → (samples : ℕ) × IsTotal
        (found_in created_table (lines_of r.bytes))
        (length (found_in inserted_table (lines_of r.bytes)))
        (record { report = report; sample_count = samples })
unfolding verify_sql_dump
verify_sql_dump-IsTotal type r {report} e =
    let last = scan_all (lines_of r.bytes) (no_counts type) in
    let (short, rest) =
      fail_if->>-eq-ok (any_of is_too_long (split_lines r.bytes))
        (codes "bufio.Scanner: token too long") (unless (λ f. f) r.fault >> ok last.report) e in
    let (read, made) = >>-eq-ok (unless (λ f. f) r.fault) (ok last.report) rest in
    let same : last.report ≡ report = cc in
    (
      last.sample_count,
      subst
          (λ x.
            IsTotal (found_in created_table (lines_of r.bytes))
              (length (found_in inserted_table (lines_of r.bytes)))
              (record { report = x; sample_count = last.sample_count }))
          same
          (subst (λ n. IsTotal (found_in created_table (lines_of r.bytes)) n last) (omega arith)
            (scan_all-IsTotal (lines_of r.bytes) (no_counts-IsTotal type))),
    )
