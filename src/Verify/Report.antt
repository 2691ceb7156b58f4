-- ===== src/Verify/Report.antt =====
-- The report of cmd/marmot/cmd/verify.go and the texts that it shows, with the guess of the database's type
-- from a file name.
pub mod Bounds
use marmot_cli.Common.{
  ℕ, ◌+◌, ◌-◌, ◌||◌, List, [], ◌∷◌, ◌++◌, Bytes, codes, contains, to_lower, leb, length, take,
  if◌then◌else◌, ◌==◌,
}

pub record CollectionInfo : Type 0 where
  pub name : Bytes
  pub row_count : ℕ
  pub size : ℕ

pub record SampleEntry : Type 0 where
  pub collection : Bytes
  pub content : Bytes

pub record VerifyReport : Type 0 where
  pub database_type : Bytes
  pub backup_size : ℕ
  pub structure_count : ℕ
  pub total_rows : ℕ
  pub collections : List CollectionInfo
  pub integrity_status : Bytes
  pub sample_data : List SampleEntry

-- What both readers of a dump start from.
abbrev pub empty_report : Bytes → VerifyReport
empty_report type = record {
  database_type = type;
  backup_size = 0;
  structure_count = 0;
  total_rows = 0;
  collections = [];
  integrity_status = codes "PASSED";
  sample_data = [];
}

-- `max` is three at least in every call.
unfoldable pub truncate_string : Bytes → ℕ → Bytes
truncate_string s max = if leb (length s) max then s else take (max - 3) s ++ codes "..."

abbrev pub pluralize : ℕ → Bytes → Bytes → Bytes
pluralize count singular plural = if count == 1 then singular else plural

type_in : Bytes → Bytes
unfolding contains
type_in lower =
    if contains (codes "mongo") lower
    then codes "mongo"
    else if contains (codes "postgres") lower || contains (codes "pg") lower
    then codes "postgres"
    else if contains (codes "mysql") lower || contains (codes "mariadb") lower
    then codes "mysql"
    else []

unfoldable pub detect_db_type_from_filename : Bytes → Bytes
unfolding type_in to_lower
detect_db_type_from_filename filename = type_in (to_lower filename)

-- The rows of all the tables or collections.
abbrev pub counted : List CollectionInfo → ℕ
counted [] = 0
counted (c ∷ cs) = c.row_count + counted cs
