-- ===== src/Webhooks.antt =====
-- internal/webhooks: the hooks of a project, and the delivery of its events.
mod Store
mod Delivery
mod Service
pub mod Attempts
pub mod Fanout
pub mod Hooks
unfoldable pub use Store.*
unfoldable pub use Delivery.*
unfoldable pub use Service.*
