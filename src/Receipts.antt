-- ===== src/Receipts.antt =====
-- internal/billing/email.go: the receipt in PDF.
mod Texts
mod Escapes
mod Document
mod Lines
pub mod Reading
mod Digits
pub mod Offsets
unfoldable pub use Texts.*
unfoldable pub use Escapes.*
unfoldable pub use Document.*
unfoldable pub use Lines.*
