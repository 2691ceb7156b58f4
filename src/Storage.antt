-- ===== src/Storage.antt =====
-- The types of internal/storage/storage.go. A time is a number of nanoseconds since the zero time
-- of Go (year 1), so that `IsZero` is `t == 0`; the zone of a time is not kept.
pub mod Queue
pub mod Local
use marmot_cli.Common.{ℕ, Bytes, ℤ}

abbrev pub Time : Type 0
Time = ℕ

abbrev pub second : ℕ
second = 1000000000

abbrev pub minute : ℕ
minute = 60000000000

pub record BackupFile : Type 0 where
  pub name : Bytes
  pub path : Bytes
  pub size : ℕ
  pub created_at : Time
  pub database_id : Bytes
  pub retry_count : ℕ
  pub last_retry_at : Time

pub record DiskUsage : Type 0 where
  pub total : ℤ
  pub used : ℤ
  pub available : ℤ
