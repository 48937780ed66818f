-- ===== src/Storage.antt =====
-- internal/storage/r2.go: the client of the object store. What the S3 library answers is a parameter.
mod Client
pub mod Batches
unfoldable pub use Client.*
