-- ===== src/Billing.antt =====
-- internal/billing: plans, subscriptions, payments and storage add-ons.
mod Store
mod Gateway
mod Subscriptions
mod Checkout
mod Addons
mod Webhook
pub mod Laws
pub mod Activation
pub mod Replay
pub mod Payments
unfoldable pub use Store.*
unfoldable pub use Gateway.*
unfoldable pub use Subscriptions.*
unfoldable pub use Checkout.*
unfoldable pub use Addons.*
unfoldable pub use Webhook.*
