-- ===== src/Auth/Invariant.antt =====
-- The invariant of the accounts and sessions over any history of requests.
use nexium_storage_back.Shared.{
  ℕ, String, Option, none, some, List, [], ◌∷◌, Error, Result, ok, err,
}
use nexium_storage_back.Server.{get_user_by_id}
use nexium_storage_back.World.{User, RefreshToken, Ext, World}
use nexium_storage_back.World.Keeps.{Keeps}
use nexium_storage_back.Mailer.{Mailer, post, send}
use nexium_storage_back.Auth.{
  Service, required, issue_token_pair, send_code, check_code, generate_token, generate_code,
  hash_password, get_user_by_email, get_refresh_token, get_latest_code, Request, serve, run,
  EmailTpl, VerifyEmailRequest, RegisterRequest, registers, logs_in, refreshes, logs_out, asks_me,
  updates_profile, requests_email_change, confirms_email_change, cancels_email_change,
  verifies_email, resends_verification, forgets_password, verifies_reset_code, resets_password,
  resend_to, reset_code_to, verify_reset_code, reset_password, ResetPasswordRequest, update_profile,
  changed_password, UpdateProfileRequest, request_email_change, request_for, confirm_email_change,
  logout, me, cancel_email_change, resend_verification, forgot_password, register_again,
  register_new, register_for, register, check_registration, LoginRequest, login, known_user,
  or_unauthorized, owner_or_error, refresh, verify_email, verify_with_code,
}
use nexium_storage_back.Auth.Consistency.{IsConsistent, statements}

required-Keeps {ℓ} : {A : Type ℓ} (e : Error) (o : Option A) → Keeps IsConsistent (required e o)
required-Keeps e none x w p = p
required-Keeps e (some a) x w p = p

send-Keeps :
    (m : Mailer) (email subject html : String) → Keeps IsConsistent (send m email subject html)
unfolding send post
send-Keeps m email subject html = search statements

generate_code-Keeps : Keeps IsConsistent generate_code
unfolding generate_code
generate_code-Keeps = search statements

send_code-Keeps :
    (s : Service) (id : ℕ) (email purpose : String) (tpl : EmailTpl)
    → Keeps IsConsistent (send_code s id email purpose tpl)
unfolding send_code
send_code-Keeps s id email purpose tpl =
    search (statements, generate_code-Keeps, send-Keeps) depth 12

hash_password-Keeps :
    (s : Service) (password : String) → Keeps IsConsistent (hash_password s password)
unfolding hash_password
hash_password-Keeps s password = search statements

check_code-Keeps :
    (id : ℕ) (purpose code : String) → Keeps IsConsistent (check_code id purpose code)
unfolding check_code get_latest_code
check_code-Keeps id purpose code = search (statements, required-Keeps) depth 12

issue_token_pair-Keeps : (s : Service) (u : User) → Keeps IsConsistent (issue_token_pair s u)
unfolding issue_token_pair generate_token
issue_token_pair-Keeps s u = search (statements, required-Keeps) depth 12

register_again-Keeps :
    (s : Service) (req : RegisterRequest) (u : User) → Keeps IsConsistent (register_again s req u)
unfolding register_again
register_again-Keeps s req u = search (statements, hash_password-Keeps, send_code-Keeps) depth 12

register_new-Keeps : (s : Service) (req : RegisterRequest) → Keeps IsConsistent (register_new s req)
unfolding register_new
register_new-Keeps s req = search (statements, hash_password-Keeps, send_code-Keeps) depth 12

register_for-Keeps :
    (s : Service) (req : RegisterRequest) (o : Option User)
    → Keeps IsConsistent (register_for s req o)
register_for-Keeps s req none = register_new-Keeps s req
register_for-Keeps s req (some u) = register_again-Keeps s req u

register-Keeps : (s : Service) (req : RegisterRequest) → Keeps IsConsistent (register s req)
unfolding register check_registration get_user_by_email
register-Keeps s req = search (statements, register_for-Keeps) depth 12

known_user-Keeps :
    (s : Service) (password : String) (o : Option User)
    → Keeps IsConsistent (known_user s password o)
known_user-Keeps s password none = search statements
known_user-Keeps s password (some u) = search statements

login-Keeps : (s : Service) (req : LoginRequest) → Keeps IsConsistent (login s req)
unfolding login get_user_by_email
login-Keeps s req = search (statements, known_user-Keeps, issue_token_pair-Keeps) depth 12

or_unauthorized-Keeps {ℓ} : {A : Type ℓ} (r : Result A) → Keeps IsConsistent (or_unauthorized r)
or_unauthorized-Keeps (ok a) x w p = p
or_unauthorized-Keeps (err e) x w p = p

owner_or_error-Keeps : (o : Option RefreshToken) → Keeps IsConsistent (owner_or_error o)
owner_or_error-Keeps none x w p = p
owner_or_error-Keeps (some tok) x w p = p

get_refresh_token-Keeps : (hash : String) → Keeps IsConsistent (get_refresh_token hash)
unfolding get_refresh_token
get_refresh_token-Keeps hash = search (statements, owner_or_error-Keeps)

get_user_by_id-Keeps : (id : ℕ) → Keeps IsConsistent (get_user_by_id id)
unfolding get_user_by_id
get_user_by_id-Keeps id = search statements

refresh-Keeps : (s : Service) (token : String) → Keeps IsConsistent (refresh s token)
unfolding refresh
refresh-Keeps s token =
    search
      (
        statements, get_refresh_token-Keeps, get_user_by_id-Keeps, or_unauthorized-Keeps,
        required-Keeps, issue_token_pair-Keeps,
      )
      depth 20

verify_email-Keeps :
    (s : Service) (req : VerifyEmailRequest) → Keeps IsConsistent (verify_email s req)
unfolding verify_email verify_with_code get_user_by_email
verify_email-Keeps s req =
    search (statements, required-Keeps, check_code-Keeps, issue_token_pair-Keeps) depth 20

resend_to-Keeps : (s : Service) (o : Option User) → Keeps IsConsistent (resend_to s o)
resend_to-Keeps s none = search statements
resend_to-Keeps s (some u) = search (statements, send_code-Keeps)

reset_code_to-Keeps : (s : Service) (o : Option User) → Keeps IsConsistent (reset_code_to s o)
reset_code_to-Keeps s none = search statements
reset_code_to-Keeps s (some u) = search (statements, send_code-Keeps)

verify_reset_code-Keeps :
    (s : Service) (email code : String) → Keeps IsConsistent (verify_reset_code s email code)
unfolding verify_reset_code get_user_by_email
verify_reset_code-Keeps s email code =
    search (statements, required-Keeps, check_code-Keeps) depth 12

reset_password-Keeps :
    (s : Service) (req : ResetPasswordRequest) → Keeps IsConsistent (reset_password s req)
unfolding reset_password get_user_by_email
reset_password-Keeps s req =
    search (statements, required-Keeps, check_code-Keeps, hash_password-Keeps) depth 20

update_profile-Keeps :
    (s : Service) (id : ℕ) (req : UpdateProfileRequest)
    → Keeps IsConsistent (update_profile s id req)
unfolding update_profile changed_password
update_profile-Keeps s id req =
    search (statements, get_user_by_id-Keeps, required-Keeps, hash_password-Keeps) depth 20

request_email_change-Keeps :
    (s : Service) (id : ℕ) (email : String) → Keeps IsConsistent (request_email_change s id email)
unfolding request_email_change request_for get_user_by_email
request_email_change-Keeps s id email =
    search (statements, get_user_by_id-Keeps, required-Keeps, send_code-Keeps) depth 20

confirm_email_change-Keeps :
    (s : Service) (id : ℕ) (code : String) → Keeps IsConsistent (confirm_email_change s id code)
unfolding confirm_email_change
confirm_email_change-Keeps s id code =
    search (statements, get_user_by_id-Keeps, required-Keeps, check_code-Keeps) depth 20

ruleset operations = (
  register-Keeps, login-Keeps, refresh-Keeps, verify_email-Keeps, resend_to-Keeps,
  reset_code_to-Keeps, verify_reset_code-Keeps, reset_password-Keeps, update_profile-Keeps,
  request_email_change-Keeps, confirm_email_change-Keeps, get_user_by_id-Keeps, required-Keeps,
)

serve-Keeps : (s : Service) (c : Request) → Keeps IsConsistent (serve s c)
unfolding serve logout me cancel_email_change resend_verification forgot_password get_user_by_email
serve-Keeps s (registers req) = search (statements, operations)
serve-Keeps s (logs_in req) = search (statements, operations)
serve-Keeps s (refreshes token) = search (statements, operations)
serve-Keeps s (logs_out token) = search (statements, operations)
serve-Keeps s (asks_me id) = search (statements, operations)
serve-Keeps s (updates_profile id req) = search (statements, operations)
serve-Keeps s (requests_email_change id email) = search (statements, operations)
serve-Keeps s (confirms_email_change id code) = search (statements, operations)
serve-Keeps s (cancels_email_change id) = search (statements, operations)
serve-Keeps s (verifies_email req) = search (statements, operations)
serve-Keeps s (resends_verification email) = search (statements, operations)
serve-Keeps s (forgets_password email) = search (statements, operations)
serve-Keeps s (verifies_reset_code email code) = search (statements, operations)
serve-Keeps s (resets_password req) = search (statements, operations)

-- Over any history of requests, whatever the outside answers and wherever a call fails, identifiers
-- and e-mails of users stay distinct, and so do the hashes of the refresh tokens.
pub run-IsConsistent :
    (s : Service) (cs : List (Ext × Request)) (w : World)
    → IsConsistent w.db
    → IsConsistent (run s cs w).db
unfolding run
run-IsConsistent s [] w c = c
run-IsConsistent s ((x, r) ∷ cs) w c =
    run-IsConsistent s cs (serve s r x w).1 (serve-Keeps s r x w c)
