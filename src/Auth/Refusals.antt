-- ===== src/Auth/Refusals.antt =====
-- What the operations of internal/auth/service.go leave behind where they refuse a request.
use nexium_storage_back.Shared.{
  ℕ, String, Option, none, some, api, ap, refl, err, true, false, Bool, ◌≡◌, ◌⊎◌, inl, inr, arith,
  ◌∷◌, ◌||◌, Bool-cases, find_by, Option-cases,
}
use nexium_storage_back.World.{pure, ◌>>◌, User, RefreshToken, Db, Log, sql, Ext, World}
use nexium_storage_back.World.Refusals.{
  query-Reads, raise_if-Reads, branch-Reads, bind-Refuses, IsFirm-Refuses, bind-IsFirm, Reads,
  IsFirm, Refuses, pure-Reads, pure-IsFirm, exec_unique-IsFirm, reading, firm, refusing,
  then_pure-Refuses, is_api, Reads-Refuses,
}
use nexium_storage_back.Server.{get_user_by_id}
use nexium_storage_back.Auth.{
  has_hash, has_id, is_live, remove_tokens, refresh, get_refresh_token, LoginRequest, Profile,
  RegisterRequest, Request, ResetPasswordRequest, Service, UpdateProfileRequest, VerifyEmailRequest,
  asks_me, cancel_email_change, cancels_email_change, changed_password, check_registration,
  clear_pending_email, confirm_email_change, confirms_email_change, create_user,
  delete_refresh_token, delete_user_tokens, forgets_password, forgot_password, get_user_by_email,
  known_user, login, logout, logs_in, logs_out, mark_code_used, me, refreshes, register,
  register_again, register_for, register_new, registers, request_email_change, request_for,
  requests_email_change, resend_to, resend_verification, resends_verification, reset_code_to,
  reset_password, resets_password, send_code, serve, set_pending_email, set_verified,
  update_password, update_profile, update_user, updates_profile, verifies_email,
  verifies_reset_code, verify_email, verify_reset_code, verify_with_code,
}
use nexium_storage_back.Auth.Steps.{
  required-Reads, hash_password-Reads, hash_password-IsFirm, check_code-Reads,
  issue_token_pair-IsFirm, send_code-IsFirm,
}

register_new-IsFirm : (s : Service) (req : RegisterRequest) → IsFirm (register_new s req)
unfolding register_new create_user
register_new-IsFirm s req = search (firm, hash_password-IsFirm) depth 14

register_again-Refuses :
    (s : Service) (req : RegisterRequest) (u : User) → Refuses (register_again s req u)
unfolding register_again update_user
register_again-Refuses s req u = search (refusing, reading, firm, hash_password-Reads) depth 14

register_for-Refuses :
    (s : Service) (req : RegisterRequest) (o : Option User) → Refuses (register_for s req o)
register_for-Refuses s req none = search (IsFirm-Refuses, register_new-IsFirm)
register_for-Refuses s req (some u) = register_again-Refuses s req u

register-Refuses : (s : Service) (req : RegisterRequest) → Refuses (register s req)
unfolding register check_registration get_user_by_email
register-Refuses s req = search (bind-Refuses, reading, register_for-Refuses) depth 14

known_user-Reads :
    (s : Service) (password : String) (o : Option User) → Reads (known_user s password o)
known_user-Reads s password none = search reading
known_user-Reads s password (some u) = search reading

login-Refuses : (s : Service) (req : LoginRequest) → Refuses (login s req)
unfolding login get_user_by_email
login-Refuses s req =
    search (bind-Refuses, IsFirm-Refuses, reading, known_user-Reads, issue_token_pair-IsFirm) depth
      14

get_user_by_id-Reads : (id : ℕ) → Reads (get_user_by_id id)
unfolding get_user_by_id
get_user_by_id-Reads id = search reading

verify_with_code-Refuses :
    (s : Service) (req : VerifyEmailRequest) (u : User) → Refuses (verify_with_code s req u)
unfolding verify_with_code mark_code_used set_verified
verify_with_code-Refuses s req u =
    search (bind-Refuses, IsFirm-Refuses, firm, check_code-Reads, issue_token_pair-IsFirm) depth 14

verify_email-Refuses : (s : Service) (req : VerifyEmailRequest) → Refuses (verify_email s req)
unfolding verify_email get_user_by_email
verify_email-Refuses s req =
    search
      (refusing, query-Reads, required-Reads, verify_with_code-Refuses, issue_token_pair-IsFirm)
      depth 14

resend_to-IsFirm : (s : Service) (o : Option User) → IsFirm (resend_to s o)
resend_to-IsFirm s none = search firm
resend_to-IsFirm s (some u) = search (firm, send_code-IsFirm)

reset_code_to-IsFirm : (s : Service) (o : Option User) → IsFirm (reset_code_to s o)
reset_code_to-IsFirm s none = search firm
reset_code_to-IsFirm s (some u) = search (firm, send_code-IsFirm)

verify_reset_code-Reads :
    (s : Service) (email code : String) → Reads (verify_reset_code s email code)
unfolding verify_reset_code get_user_by_email
verify_reset_code-Reads s email code = search (reading, required-Reads, check_code-Reads) depth 14

changes-IsFirm :
    (code_id id : ℕ) (hash : String)
    → IsFirm (mark_code_used code_id >> (update_password id hash >> delete_user_tokens id))
unfolding mark_code_used update_password delete_user_tokens
changes-IsFirm code_id id hash = search firm

reset_password-Refuses : (s : Service) (req : ResetPasswordRequest) → Refuses (reset_password s req)
unfolding reset_password get_user_by_email
reset_password-Refuses s req =
    search
      (
        bind-Refuses, IsFirm-Refuses, changes-IsFirm, raise_if-Reads, query-Reads, required-Reads,
        check_code-Reads, hash_password-Reads,
      )
      depth 20

changed_password-Reads :
    (s : Service) (req : UpdateProfileRequest) (u : User) → Reads (changed_password s req u)
unfolding changed_password
changed_password-Reads s req u = search (reading, hash_password-Reads) depth 14

update_profile-Refuses :
    (s : Service) (id : ℕ) (req : UpdateProfileRequest) → Refuses (update_profile s id req)
unfolding update_profile update_user
update_profile-Refuses s id req =
    search
      (
        bind-Refuses, IsFirm-Refuses, bind-IsFirm, pure-IsFirm, exec_unique-IsFirm, branch-Reads,
        pure-Reads, get_user_by_id-Reads, required-Reads, changed_password-Reads,
      )
      depth 20

pending-IsFirm :
    (s : Service) (id : ℕ) (email : String)
    → IsFirm (set_pending_email id email >> send_code s id email "change_email" s.change_email_tpl)
unfolding set_pending_email
pending-IsFirm s id email = search (firm, send_code-IsFirm)

request_for-Refuses :
    (s : Service) (id : ℕ) (email : String) (u : User) → Refuses (request_for s id email u)
unfolding request_for get_user_by_email
request_for-Refuses s id email u =
    search (bind-Refuses, IsFirm-Refuses, pending-IsFirm, raise_if-Reads, query-Reads) depth 20

request_email_change-Refuses :
    (s : Service) (id : ℕ) (email : String) → Refuses (request_email_change s id email)
unfolding request_email_change
request_email_change-Refuses s id email =
    search (bind-Refuses, get_user_by_id-Reads, required-Reads, request_for-Refuses)

confirmed-IsFirm :
    (code_id id : ℕ) (name email hash : String) (p : Profile)
    → IsFirm (
        mark_code_used code_id
        >> (update_user id name email hash >> (clear_pending_email id >> pure p)))
unfolding mark_code_used update_user clear_pending_email
confirmed-IsFirm code_id id name email hash p = search firm

confirm_email_change-Refuses :
    (s : Service) (id : ℕ) (code : String) → Refuses (confirm_email_change s id code)
unfolding confirm_email_change
confirm_email_change-Refuses s id code =
    search
      (
        bind-Refuses, IsFirm-Refuses, confirmed-IsFirm, raise_if-Reads, get_user_by_id-Reads,
        required-Reads, check_code-Reads,
      )
      depth 20

ruleset operations = (
  then_pure-Refuses, register-Refuses, login-Refuses, verify_email-Refuses, update_profile-Refuses,
  confirm_email_change-Refuses, reset_password-Refuses, request_email_change-Refuses,
)

me-Reads : (s : Service) (id : ℕ) → Reads (me s id)
unfolding me
me-Reads s id = search (reading, get_user_by_id-Reads, required-Reads)

abbrev is_refresh : Request → Bool
is_refresh (refreshes token) = true
is_refresh _ = false

serve-Refuses : (s : Service) (c : Request) → is_refresh c ≡ false → Refuses (serve s c)
unfolding serve logout cancel_email_change delete_refresh_token clear_pending_email
    resend_verification forgot_password get_user_by_email
serve-Refuses s (registers req) h = search operations
serve-Refuses s (logs_in req) h = search operations
serve-Refuses s (refreshes token) h = cc
serve-Refuses s (logs_out token) h = search (IsFirm-Refuses, firm)
serve-Refuses s (asks_me id) h = search (then_pure-Refuses, Reads-Refuses, me-Reads)
serve-Refuses s (updates_profile id req) h = search operations
serve-Refuses s (requests_email_change id email) h = search operations
serve-Refuses s (confirms_email_change id code) h = search operations
serve-Refuses s (cancels_email_change id) h = search (IsFirm-Refuses, firm)
serve-Refuses s (verifies_email req) h = search operations
serve-Refuses s (resends_verification email) h = search (IsFirm-Refuses, firm, resend_to-IsFirm)
serve-Refuses s (forgets_password email) h = search (IsFirm-Refuses, firm, reset_code_to-IsFirm)
serve-Refuses s (verifies_reset_code email code) h = search (Reads-Refuses, verify_reset_code-Reads)
serve-Refuses s (resets_password req) h = search operations

abbrev pub token_of : Request → Option String
token_of (refreshes token) = some token
token_of _ = none

-- The logs of a refresh at its three statements.
abbrev token_log : Log → Log
token_log l = sql "auth.GetRefreshToken" ∷ l

abbrev delete_log : Log → Log
delete_log l = sql "auth.DeleteRefreshToken" ∷ token_log l

abbrev user_log : Log → Log
user_log l = sql "auth.GetUserByID" ∷ delete_log l

-- What a request leaves that is refused: the tables as they were. A refresh may also have consumed a
-- live token, where the token's user is gone or cannot be read.
abbrev pub LeftBy : Option String → Ext → World → Db → Type 0
LeftBy none x w db' = db' ≡ w.db
LeftBy (some raw) x w db' =
    let hash = x.sha256_hex raw in
    (db' ≡ w.db)
    ⊎ ((tok : RefreshToken) × (find_by (is_live hash (x.clock (token_log w.log)))
            w.db.refresh_tokens
          ≡ some tok)
        × ((find_by (has_id tok.user_id) w.db.users ≡ none) ⊎ (x.fails (user_log w.log) ≡ true))
        × (db' ≡ remove_tokens (has_hash hash) w.db))

-- Every API error of a refresh is before the tokens are issued.
refresh-LeftBy :
    (s : Service) (raw : String) (x : Ext) (w : World)
    → is_api (refresh s raw x w).0 ≡ true
    → LeftBy (some raw) x w (refresh s raw x w).1.db
unfolding refresh get_refresh_token delete_refresh_token get_user_by_id
refresh-LeftBy s raw x w e =
    let hash = x.sha256_hex raw in
    elim (Bool-cases (x.fails (token_log w.log) || x.fails (delete_log w.log))) [
      | inl failed ↦ inl (ground arith)
      | inr up ↦
          elim (Option-cases
            (find_by (is_live hash (x.clock (token_log w.log))) w.db.refresh_tokens)) [
              | inl none_live ↦ inl (ground arith)
              | inr (tok, live) ↦ elim (Bool-cases (x.fails (user_log w.log))) [
                | inl unread ↦ inr (tok, live, inr unread, ground arith)
                | inr read ↦ elim (Option-cases (find_by (has_id tok.user_id) w.db.users)) [
                  | inl gone ↦ inr (tok, live, inl gone, ground arith)
                  | inr (u, found) ↦
                      let w3 : World = record {
                        db = remove_tokens (has_hash hash) w.db;
                        log = user_log w.log;
                      } in
                      absurd (ground (arith, issue_token_pair-IsFirm s u x w3))
                ]
              ]
            ]
    ]

serve-LeftBy :
    (s : Service) (c : Request) (x : Ext) (w : World)
    → is_api (serve s c x w).0 ≡ true
    → LeftBy (token_of c) x w (serve s c x w).1.db
unfolding serve
serve-LeftBy s (refreshes token) x w e = ground (arith, refresh-LeftBy s token x w)
serve-LeftBy s (registers req) x w e = serve-Refuses s (registers req) refl x w e
serve-LeftBy s (logs_in req) x w e = serve-Refuses s (logs_in req) refl x w e
serve-LeftBy s (logs_out token) x w e = serve-Refuses s (logs_out token) refl x w e
serve-LeftBy s (asks_me id) x w e = serve-Refuses s (asks_me id) refl x w e
serve-LeftBy s (updates_profile id req) x w e = serve-Refuses s (updates_profile id req) refl x w e
serve-LeftBy s (requests_email_change id email) x w e =
    serve-Refuses s (requests_email_change id email) refl x w e
serve-LeftBy s (confirms_email_change id code) x w e =
    serve-Refuses s (confirms_email_change id code) refl x w e
serve-LeftBy s (cancels_email_change id) x w e =
    serve-Refuses s (cancels_email_change id) refl x w e
serve-LeftBy s (verifies_email req) x w e = serve-Refuses s (verifies_email req) refl x w e
serve-LeftBy s (resends_verification email) x w e =
    serve-Refuses s (resends_verification email) refl x w e
serve-LeftBy s (forgets_password email) x w e = serve-Refuses s (forgets_password email) refl x w e
serve-LeftBy s (verifies_reset_code email code) x w e =
    serve-Refuses s (verifies_reset_code email code) refl x w e
serve-LeftBy s (resets_password req) x w e = serve-Refuses s (resets_password req) refl x w e

-- Whatever operation refuses a request with an API error has written nothing. A refresh is the
-- exception: it may have consumed a live token, and nothing else, where the token's user is gone or the
-- statement that reads the user fails.
pub refused_changes_nothing :
    (s : Service) (c : Request) (x : Ext) (w : World) {n : ℕ} {msg : String}
    → (serve s c x w).0 ≡ err (api n msg)
    → LeftBy (token_of c) x w (serve s c x w).1.db
refused_changes_nothing s c x w e = serve-LeftBy s c x w (ap is_api e)
