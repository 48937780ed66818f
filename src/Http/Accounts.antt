-- ===== src/Http/Accounts.antt =====
-- internal/auth/handler.go: the routes on accounts and sessions. A body is what encoding/json makes
-- of it, or none.
use nexium_storage_back.Shared.{ℕ, ◌||◌, String, Option, ◌=s=◌, bad_request}
use nexium_storage_back.World.{Action, spawn, pure, ◌>>=◌, ◌>>◌, read, raise_if}
use nexium_storage_back.Auth.{
  Service, RegisterRequest, LoginRequest, VerifyEmailRequest, ResetPasswordRequest,
  UpdateProfileRequest, Profile, TokenPair, register, login, refresh, logout, me, update_profile,
  request_email_change, confirm_email_change, cancel_email_change, verify_email,
  resend_verification, forgot_password, verify_reset_code, reset_password,
}
use nexium_storage_back.Middleware.{Context}
use nexium_storage_back.Http.Files.{required, user_of}

-- internal/logs/store.go: `Async` starts a goroutine, whose statement is `insert_log` of Logs/Store.
unfoldable pub log_async : ℕ → String → Action (Unit {0})
log_async user_id action = read (λ x l. tt) (spawn action user_id)

abbrev pub json_of {ℓ} : {A : Type ℓ} → Option A → Action A
json_of parsed = required (bad_request "invalid JSON") parsed

unfoldable register_route : Service → Option RegisterRequest → Action String
register_route s parsed = do req ← json_of parsed; register s req

unfoldable login_route : Service → Option LoginRequest → Action TokenPair
login_route s parsed = do
  req ← json_of parsed
  pair ← login s req
  log_async pair.profile.user.id "auth.login"
  pure pair

unfoldable refresh_route : Service → Option String → Action TokenPair
refresh_route s parsed = do token ← json_of parsed; refresh s token

unfoldable verify_email_route : Service → Option VerifyEmailRequest → Action TokenPair
verify_email_route s parsed = do
  req ← required (bad_request "email and code are required") parsed
  raise_if (req.email =s= "" || req.code =s= "") (bad_request "email and code are required")
  pair ← verify_email s req
  log_async pair.profile.user.id "auth.verify_email"
  pure pair

unfoldable resend_verification_route : Service → Option String → Action (Unit {0})
resend_verification_route s parsed = do
  email ← required (bad_request "email is required") parsed
  raise_if (email =s= "") (bad_request "email is required")
  resend_verification s email

unfoldable forgot_password_route : Service → Option String → Action (Unit {0})
forgot_password_route s parsed = do
  email ← required (bad_request "email is required") parsed
  raise_if (email =s= "") (bad_request "email is required")
  forgot_password s email

unfoldable verify_reset_code_route : Service → Option VerifyEmailRequest → Action (Unit {0})
verify_reset_code_route s parsed = do
  req ← required (bad_request "email and code are required") parsed
  raise_if (req.email =s= "" || req.code =s= "") (bad_request "email and code are required")
  verify_reset_code s req.email req.code

unfoldable reset_password_route : Service → Option ResetPasswordRequest → Action (Unit {0})
reset_password_route s parsed = do
  req ← required (bad_request "email, code and password are required") parsed
  raise_if (req.email =s= "" || (req.code =s= "" || req.password =s= ""))
      (bad_request "email, code and password are required")
  reset_password s req

unfoldable pub logout_route : Context → Option String → Action (Unit {0})
logout_route c parsed = do
  user_id ← user_of c
  token ← json_of parsed
  logout token
  log_async user_id "auth.logout"

unfoldable pub me_route : Service → Context → Action Profile
me_route s c = do user_id ← user_of c; me s user_id

unfoldable pub request_email_change_route : Service → Context → Option String → Action (Unit {0})
request_email_change_route s c parsed = do
  user_id ← user_of c
  email ← required (bad_request "email is required") parsed
  raise_if (email =s= "") (bad_request "email is required")
  request_email_change s user_id email

unfoldable pub confirm_email_change_route : Service → Context → Option String → Action Profile
confirm_email_change_route s c parsed = do
  user_id ← user_of c
  code ← required (bad_request "code is required") parsed
  raise_if (code =s= "") (bad_request "code is required")
  profile ← confirm_email_change s user_id code
  log_async user_id "auth.email.changed"
  pure profile

unfoldable pub cancel_email_change_route : Context → Action (Unit {0})
cancel_email_change_route c = do user_id ← user_of c; cancel_email_change user_id

unfoldable pub update_me_route : Service → Context → Option UpdateProfileRequest → Action Profile
update_me_route s c parsed = do
  user_id ← user_of c
  req ← json_of parsed
  profile ← update_profile s user_id req
  log_async user_id "auth.profile.update"
  pure profile
