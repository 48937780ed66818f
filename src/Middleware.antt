-- ===== src/Middleware.antt =====
-- pkg/middleware: what stands between the router and the handlers.
mod RateLimit
mod Scope
mod ApiQuota
pub mod Bursts
pub mod Guards
unfoldable pub use RateLimit.*
unfoldable pub use Scope.*
unfoldable pub use ApiQuota.*
