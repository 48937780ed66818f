-- ===== src/Http/Signatures.antt =====
-- internal/billing/handler.go: `verifySignature`.
use Prim.Native.String.{slice, len}
use text.Mathlib.Text.{starts_with}
use nexium_storage_back.Shared.{Bool, ◌&&◌, String, ◌=s=◌}

-- The first argument is the HMAC-SHA-256 of a body under a secret, in hexadecimal. "sha256=" has 7
-- bytes.
unfoldable pub verify_signature : (String → String → String) → String → String → String → Bool
verify_signature hmac_hex body header secret =
    starts_with header "sha256=" && hmac_hex body secret =s= slice header 7 (len header)
