-- ===== src/Apikeys.antt =====
-- internal/apikeys: the keys of a project, by which programs use the external API.
mod Store
mod Service
pub mod Scope
unfoldable pub use Store.*
unfoldable pub use Service.*
