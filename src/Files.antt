-- ===== src/Files.antt =====
-- internal/files: the files of a bucket, their objects in R2, and the storage quota.
mod Store
mod Model
mod Operations
pub mod Quota
pub mod Access
pub mod Confirm
unfoldable pub use Store.*
unfoldable pub use Model.*
unfoldable pub use Operations.*
