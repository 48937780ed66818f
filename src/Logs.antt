-- ===== src/Logs.antt =====
-- internal/logs: the activity log.
mod Store
pub mod Patterns
pub mod Filters
unfoldable pub use Store.*
