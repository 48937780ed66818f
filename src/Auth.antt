-- ===== src/Auth.antt =====
-- internal/auth: accounts, passwords, sessions and the codes that are sent by e-mail.
mod Text
mod Model
mod Passwords
mod Store
mod Tokens
mod Signing
mod Recovery
mod Profiles
mod Requests
mod Unique
pub mod Refinement
pub mod Hashing
mod Steps
pub mod Refusals
pub mod Accounts
pub mod Consistency
pub mod Invariant
pub mod Sessions
pub mod Codes
pub mod Emails
unfoldable pub use Text.*
unfoldable pub use Model.*
unfoldable pub use Passwords.*
unfoldable pub use Store.*
unfoldable pub use Tokens.*
unfoldable pub use Signing.*
unfoldable pub use Recovery.*
unfoldable pub use Profiles.*
unfoldable pub use Requests.*
