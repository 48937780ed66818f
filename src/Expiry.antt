-- ===== src/Expiry.antt =====
-- internal/expiry: the daily job that ends subscriptions and deletes what their users left.
mod Job
pub mod Subscriptions
pub mod Deletion
unfoldable pub use Job.*
