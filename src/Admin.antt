-- ===== src/Admin.antt =====
-- internal/admin/handler.go: what administrators do to accounts, to the platform and to the plans.
mod Accounts
mod Platform
mod Plans
pub mod Countries
pub mod Listings
pub mod Channels
pub mod Logos
pub mod Totals
pub mod Rates
pub mod Roles
pub mod Quotas
unfoldable pub use Accounts.*
unfoldable pub use Platform.*
unfoldable pub use Plans.*
