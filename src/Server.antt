-- ===== src/Server.antt =====
-- cmd/server/main.go: the services as they are put together, and the statements of
-- internal/auth/store.go that are injected into the others.
mod Wiring
mod Routes
pub mod Metering
pub mod Promotion
pub mod Gates
pub mod Laws
unfoldable pub use Wiring.*
unfoldable pub use Routes.*
