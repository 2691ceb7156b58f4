-- ===== src/S3.antt =====
-- The S3 provider: internal/s3/provider.go and internal/s3/s3.go.
pub mod Key
pub mod Settings
pub mod Client
pub mod Listing
pub mod Transfer
pub mod Examples
