-- ===== src/Auth/Requests.antt =====
-- The operations of the interface `Service` of internal/auth/service.go, as one type of requests.
use nexium_storage_back.Shared.{ℕ, String, List, [], ◌∷◌}
use nexium_storage_back.World.{Ext, World, Action, ◌>>◌, pure}
use nexium_storage_back.Auth.Model.{
  Service, UpdateProfileRequest, RegisterRequest, LoginRequest, VerifyEmailRequest,
  ResetPasswordRequest,
}
use nexium_storage_back.Auth.Signing.{
  register, login, refresh, logout, verify_email, resend_verification,
}
use nexium_storage_back.Auth.Recovery.{forgot_password, verify_reset_code, reset_password}
use nexium_storage_back.Auth.Profiles.{
  me, update_profile, request_email_change, confirm_email_change, cancel_email_change,
}

pub data Request : Type 0 where
  registers : RegisterRequest → Request
  logs_in : LoginRequest → Request
  refreshes : String → Request
  logs_out : String → Request
  asks_me : ℕ → Request
  updates_profile : ℕ → UpdateProfileRequest → Request
  requests_email_change : ℕ → String → Request
  confirms_email_change : ℕ → String → Request
  cancels_email_change : ℕ → Request
  verifies_email : VerifyEmailRequest → Request
  resends_verification : String → Request
  forgets_password : String → Request
  verifies_reset_code : String → String → Request
  resets_password : ResetPasswordRequest → Request

-- The answer but for its error is left out.
unfoldable pub serve : Service → Request → Action (Unit {0})
serve s (registers req) = do register s req; pure tt
serve s (logs_in req) = do login s req; pure tt
serve s (refreshes token) = do refresh s token; pure tt
serve s (logs_out token) = logout token
serve s (asks_me id) = do me s id; pure tt
serve s (updates_profile id req) = do update_profile s id req; pure tt
serve s (requests_email_change id email) = request_email_change s id email
serve s (confirms_email_change id code) = do confirm_email_change s id code; pure tt
serve s (cancels_email_change id) = cancel_email_change id
serve s (verifies_email req) = do verify_email s req; pure tt
serve s (resends_verification email) = resend_verification s email
serve s (forgets_password email) = forgot_password s email
serve s (verifies_reset_code email code) = verify_reset_code s email code
serve s (resets_password req) = reset_password s req

-- A history of requests, each with what the outside answers to it.
unfoldable pub run : Service → List (Ext × Request) → World → World
run s [] w = w
run s (c ∷ cs) w = run s cs (serve s c.1 c.0 w).1
