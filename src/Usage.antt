-- ===== src/Usage.antt =====
-- internal/usage: what a project stores (service.go and store.go).
mod Joins
pub mod Totals
unfoldable pub use Joins.*
