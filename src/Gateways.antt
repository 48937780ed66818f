-- ===== src/Gateways.antt =====
-- pkg/saspay/client.go and pkg/adullam/client.go: what the clients of the payment gateways make of an
-- answer. HTTP and encoding/json are parameters.
mod Answers
mod Saspay
mod Adullam
pub mod Acceptance
unfoldable pub use Answers.*
unfoldable pub use Saspay.*
unfoldable pub use Adullam.*
