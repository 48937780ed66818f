-- ===== src/Projects.antt =====
-- internal/projects: a user's projects, which hold the buckets.
mod Slugs
mod Store
mod Operations
pub mod Deletion
pub mod Naming
unfoldable pub use Slugs.*
unfoldable pub use Store.*
unfoldable pub use Operations.*
