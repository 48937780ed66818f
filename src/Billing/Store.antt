-- ===== src/Billing/Store.antt =====
-- internal/billing/store.go: the SQL statements on plans, subscriptions, payments and add-ons.
mod Countries
mod Plans
mod Payments
mod Addons
unfoldable pub use Countries.*
unfoldable pub use Plans.*
unfoldable pub use Payments.*
unfoldable pub use Addons.*
