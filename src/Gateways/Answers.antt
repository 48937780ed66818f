-- ===== src/Gateways/Answers.antt =====
-- pkg/saspay/client.go and pkg/adullam/client.go: answers over HTTP, and how a call of a client ends.
use nexium_storage_back.Shared.{ℕ, String}

pub record Answer : Type 0 where
  pub status : ℕ
  pub body : String

pub data Outcome {ℓ} (A : Type ℓ) : Type ℓ where
  got : A → Outcome A
  -- `fmt.Errorf("... %d: %s", resp.StatusCode, ...)`
  refused : ℕ → String → Outcome A
  -- an error of encoding/json
  unreadable : Outcome A
  -- an error of the call
  unreachable : Outcome A
