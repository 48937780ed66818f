-- ===== src/Auth/Recovery.antt =====
-- internal/auth/service.go: a forgotten password is reset by a code.
use Prim.Native.String.{len}
use nexium_storage_back.Shared.{String, Option, none, some, ltb, bad_request}
use nexium_storage_back.World.{User, Action, pure, ◌>>=◌, ◌>>◌, raise_if}
use nexium_storage_back.Auth.Model.{Service, ResetPasswordRequest}
use nexium_storage_back.Auth.Passwords.{hash_password}
use nexium_storage_back.Auth.Store.{
  get_user_by_email, mark_code_used, update_password, delete_user_tokens,
}
use nexium_storage_back.Auth.Tokens.{required, send_code, check_code}
use nexium_storage_back.Auth.Signing.{normalised}

abbrev pub reset_code_to : Service → Option User → Action (Unit {0})
reset_code_to s none = pure tt
reset_code_to s (some u) = send_code s u.id u.email "reset_password" s.reset_password_tpl

unfoldable pub forgot_password : Service → String → Action (Unit {0})
forgot_password s email = do row ← get_user_by_email (normalised s email); reset_code_to s row

unfoldable pub verify_reset_code : Service → String → String → Action (Unit {0})
verify_reset_code s email code = do
  row ← get_user_by_email (normalised s email)
  user ← required (bad_request "invalid or expired code") row
  check_code user.id "reset_password" code
  pure tt

unfoldable pub reset_password : Service → ResetPasswordRequest → Action (Unit {0})
reset_password s req = do
  raise_if (ltb (len req.password) 8) (bad_request "password must be at least 8 characters")
  row ← get_user_by_email (normalised s req.email)
  user ← required (bad_request "invalid code") row
  found ← check_code user.id "reset_password" req.code
  hash ← hash_password s req.password
  mark_code_used found.id
  update_password user.id hash
  delete_user_tokens user.id
