-- ===== src/Http.antt =====
-- The HTTP handlers of internal/*/handler.go. What net/http and encoding/json make of a request is an
-- argument; the value is that of the response.
mod Files
mod Accounts
mod Signatures
mod Events
pub mod Projects
pub mod Buckets
pub mod Keys
pub mod Hooks
mod Billing
mod Quotas
mod Responses
pub mod Meters
pub mod Gateways
pub mod Scoping
pub mod Anonymous
unfoldable pub use Files.*
unfoldable pub use Accounts.*
unfoldable pub use Signatures.*
unfoldable pub use Events.*
unfoldable pub use Responses.*
unfoldable pub use Quotas.*
