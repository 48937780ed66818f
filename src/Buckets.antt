-- ===== src/Buckets.antt =====
-- internal/buckets: the buckets of a project.
mod Names
mod Store
mod Service
pub mod Naming
pub mod Ownership
unfoldable pub use Names.*
unfoldable pub use Store.*
unfoldable pub use Service.*
