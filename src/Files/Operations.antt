-- ===== src/Files/Operations.antt =====
-- internal/files/service.go: every check and call in the order of the source. The functions that
-- cmd/server/main.go injects (`CheckBucket`, `GetUserQuota`, ...) are fields of the service.
mod Checks
mod Uploads
mod Reads
unfoldable pub use Checks.*
unfoldable pub use Uploads.*
unfoldable pub use Reads.*
