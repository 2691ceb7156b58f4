-- ===== src/Verify/Sql.antt =====
-- `verifySQLDump` of cmd/marmot/cmd/verify.go, with its two regular expressions.
pub mod Pattern
pub mod Totals
use marmot_cli.Common.{
  ℕ, suc, ◌+◌, ◌-◌, ◌*◌, Bool, true, false, ◌||◌, ◌&&◌, List, [], ◌∷◌, ◌++◌, Option, none, some,
  Bytes, codes, text_eq, Result, ok, err, ltb, leb, length, any_of, map, fail_if, ◌>>◌,
  if◌then◌else◌, ◌==◌, is_digit,
}
use marmot_cli.Streams.{Reader}
use marmot_cli.Agent.Backup.{unless}
use marmot_cli.Verify.Sql.Pattern.{created_table, inserted_table}
use marmot_cli.Verify.Report.{
  CollectionInfo, SampleEntry, VerifyReport, empty_report, truncate_string,
}

-- `bufio.ScanLines`: the texts before each line feed, and the text behind the last one unless it is empty.
with_first : ℕ → List Bytes → List Bytes
with_first c [] = (c ∷ []) ∷ []
with_first c (line ∷ lines) = (c ∷ line) ∷ lines

unfoldable pub split_lines : Bytes → List Bytes
unfolding with_first
split_lines [] = []
split_lines (c ∷ s) =
    let lines = split_lines s in if c == b'\n' then [] ∷ lines else with_first c lines

-- A line without the carriage return at its end.
unfoldable pub drop_return : Bytes → Bytes
drop_return [] = []
drop_return (c ∷ []) = if c == b'\r' then [] else c ∷ []
drop_return (c ∷ d ∷ s) = c ∷ drop_return (d ∷ s)

-- The buffer of the scanner.
abbrev pub max_token_size : ℕ
max_token_size = 1024 * 1024 * 10

-- The buffer is full before the end of the line is read.
unfoldable pub is_too_long : Bytes → Bool
is_too_long line = leb max_token_size (length line)

-- `insertCount` is counted and not read.
pub record Counts : Type 0 where
  pub report : VerifyReport
  pub sample_count : ℕ

abbrev pub no_counts : Bytes → Counts
no_counts type = record { report = empty_report type; sample_count = 0 }

-- A row in the first table of the name.
unfoldable pub count_table : Bytes → List CollectionInfo → List CollectionInfo
count_table name [] = []
count_table name (c ∷ cs) =
    let rest = count_table name cs in
    if text_eq c.name name then record c { row_count = c.row_count + 1 } ∷ cs else c ∷ rest

unfoldable pub add_table : Option Bytes → Counts → Counts
add_table none s = s
add_table (some name) s = record s {
  report = record s.report {
    structure_count = s.report.structure_count + 1;
    collections = s.report.collections ++ record { name = name; row_count = 0; size = 0 } ∷ [];
  };
}

-- A sample, while there are less than three times as many as tables, whichever tables they are of.
unfoldable pub add_sample : Bytes → Bytes → Counts → Counts
unfolding truncate_string
add_sample name line s =
    if ltb s.sample_count (3 * s.report.structure_count)
    then record {
      report = record s.report {
        sample_data =
            s.report.sample_data
            ++ record { collection = name; content = truncate_string line 200 } ∷ [];
      };
      sample_count = s.sample_count + 1;
    }
    else s

unfoldable pub add_insert : Bytes → Option Bytes → Counts → Counts
unfolding count_table add_sample
add_insert line none s = s
add_insert line (some name) s = add_sample name line (record s {
  report = record s.report {
    total_rows = s.report.total_rows + 1;
    collections = count_table name s.report.collections;
  };
})

unfoldable pub scan_line : Bytes → Counts → Counts
unfolding add_insert add_table created_table inserted_table
scan_line line s = add_insert line (inserted_table line) (add_table (created_table line) s)

unfoldable pub scan_all : List Bytes → Counts → Counts
unfolding scan_line
scan_all [] s = s
scan_all (line ∷ lines) s = scan_all lines (scan_line line s)

-- The errors are those of `scanner.Err()`.
unfoldable pub verify_sql_dump : Bytes → Reader → Result Bytes VerifyReport
unfolding scan_all split_lines drop_return is_too_long any_of
verify_sql_dump type r = do
  fail_if (any_of is_too_long (split_lines r.bytes)) (codes "bufio.Scanner: token too long")
  unless (λ e. e) r.fault
  ok (scan_all (map drop_return (split_lines r.bytes)) (no_counts type)).report
