-- ===== src/Database.antt =====
-- pkg/database/migrate.go: the migrations that are not applied yet are applied at the start.
mod Migrate
pub mod Applied
unfoldable pub use Migrate.*
