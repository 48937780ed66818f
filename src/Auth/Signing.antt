-- ===== src/Auth/Signing.antt =====
-- internal/auth/service.go: an account is registered and verified, and a session begins, goes on and
-- ends.
use Prim.Native.String.{len}
use nexium_storage_back.Shared.{
  ℕ, not, false, String, Option, none, some, ◌=s=◌, ltb, if◌then◌else◌, api, unauthorized,
  bad_request, conflict, Result, ok, err,
}
use nexium_storage_back.World.{
  User, Action, pure, raise, attempt, ignore, ◌>>=◌, ◌>>◌, raise_if, now, new_uuid,
}
use nexium_storage_back.Server.{get_user_by_id}
use nexium_storage_back.Auth.Text.{has_code}
use nexium_storage_back.Auth.Model.{
  Service, RegisterRequest, LoginRequest, VerifyEmailRequest, TokenPair,
}
use nexium_storage_back.Auth.Passwords.{hash_password, verify_password, hash_token}
use nexium_storage_back.Auth.Store.{
  create_user, get_user_by_email, update_user, set_verified, with_verified, get_refresh_token,
  delete_refresh_token, mark_code_used,
}
use nexium_storage_back.Auth.Tokens.{required, issue_token_pair, send_code, check_code}

-- strings.ToLower(strings.TrimSpace(email))
abbrev pub normalised : Service → String → String
normalised s email = s.to_lower (s.trim_space email)

-- 64 is "@".
unfoldable pub check_registration : Service → RegisterRequest → Action (Unit {0})
check_registration s req = do
  raise_if (not req.terms_accepted) (bad_request "you must accept the terms of service")
  raise_if (s.trim_space req.name =s= "") (bad_request "name is required")
  raise_if (not (has_code 64 req.email)) (bad_request "invalid email")
  raise_if (ltb (len req.password) 8) (bad_request "password must be at least 8 characters")

-- What is returned is the e-mail of the response.
unfoldable pub register_again : Service → RegisterRequest → User → Action String
register_again s req u = do
  raise_if u.is_verified (conflict "email already registered")
  hash ← hash_password s req.password
  update_user u.id (s.trim_space req.name) u.email hash
  ignore (send_code s u.id u.email "verify_email" s.verify_email_tpl)
  pure u.email

abbrev pub new_user : ℕ → String → String → String → User
new_user id name email hash = record {
  id = id;
  name = name;
  email = email;
  pending_email = none;
  password_hash = hash;
  is_admin = false;
  is_super_admin = false;
  is_verified = false;
  storage_quota_bytes = none;
  last_active_at = none;
  inactivity_warned_at = none;
}

unfoldable pub register_new : Service → RegisterRequest → Action String
register_new s req = do
  hash ← hash_password s req.password
  now
  id ← new_uuid
  let email = normalised s req.email
  create_user (new_user id (s.trim_space req.name) email hash)
  ignore (send_code s id email "verify_email" s.verify_email_tpl)
  pure email

abbrev pub register_for : Service → RegisterRequest → Option User → Action String
register_for s req none = register_new s req
register_for s req (some u) = register_again s req u

unfoldable pub register : Service → RegisterRequest → Action String
register s req = do
  check_registration s req
  existing ← get_user_by_email (normalised s req.email)
  register_for s req existing

-- `user == nil || !verifyPassword(...)`
abbrev pub known_user : Service → String → Option User → Action User
known_user s password none = raise (bad_request "invalid email or password")
known_user s password (some u) =
    if verify_password s password u.password_hash
    then pure u
    else raise (bad_request "invalid email or password")

unfoldable pub login : Service → LoginRequest → Action TokenPair
login s req = do
  row ← get_user_by_email (normalised s req.email)
  user ← known_user s req.password row
  raise_if (not user.is_verified) (api 403 "email_not_verified")
  issue_token_pair s user

-- Any error is a 401.
abbrev pub or_unauthorized {ℓ} : {A : Type ℓ} → Result A → Action A
or_unauthorized (ok a) = pure a
or_unauthorized (err e) = raise unauthorized

unfoldable pub refresh : Service → String → Action TokenPair
refresh s refresh_token = do
  hash ← hash_token refresh_token
  answer ← attempt (get_refresh_token hash)
  user_id ← or_unauthorized answer
  delete_refresh_token hash
  row ← attempt (get_user_by_id user_id)
  found ← or_unauthorized row
  user ← required unauthorized found
  issue_token_pair s user

unfoldable pub logout : String → Action (Unit {0})
logout refresh_token = do hash ← hash_token refresh_token; delete_refresh_token hash

unfoldable pub verify_with_code : Service → VerifyEmailRequest → User → Action TokenPair
verify_with_code s req user = do
  found ← check_code user.id "verify_email" req.code
  mark_code_used found.id
  set_verified user.id
  issue_token_pair s (with_verified user)

unfoldable pub verify_email : Service → VerifyEmailRequest → Action TokenPair
verify_email s req = do
  row ← get_user_by_email (normalised s req.email)
  user ← required (bad_request "invalid code") row
  if user.is_verified then issue_token_pair s user else verify_with_code s req user

abbrev pub resend_to : Service → Option User → Action (Unit {0})
resend_to s none = pure tt
resend_to s (some u) =
    if u.is_verified then pure tt else send_code s u.id u.email "verify_email" s.verify_email_tpl

unfoldable pub resend_verification : Service → String → Action (Unit {0})
resend_verification s email = do row ← get_user_by_email (normalised s email); resend_to s row
