-- ===== src/Verify/Report/Bounds.antt =====
-- How long the texts of a report are.
use marmot_cli.Common.{ℕ, ◌-◌, ◌≤◌, arith, Bytes, codes, length, length-append, length-take, take}
use marmot_cli.Verify.Report.{truncate_string}

pub length-truncate_string : (s : Bytes) (max : ℕ) → 3 ≤ max → length (truncate_string s max) ≤ max
unfolding truncate_string
length-truncate_string s max h =
    ground (arith, length-append (take (max - 3) s) (codes "..."), length-take (max - 3) s)
