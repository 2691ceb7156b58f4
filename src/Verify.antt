-- ===== src/Verify.antt =====
-- `marmot verify` of cmd/marmot/cmd/verify.go.
pub mod Bson
pub mod Report
pub mod Mongo
pub mod Sql
pub mod Command
mod Examples
