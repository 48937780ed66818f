-- ===== src/Examples/Sessions.antt =====
-- Accounts and sessions, at a concrete database.
use nexium_storage_back.Shared.{
  List, String, any_by, api, arith, delete_where, err, false, find_by, infra, int64_of_bits,
  mul_int64, none, pos, refl, some, true, unauthorized, update_where, ◌≡◌, [], ◌∷◌, ◌≢◌,
  if◌then◌else◌,
}
use nexium_storage_back.World.{Ext, User, VerificationCode, World, sql}
use nexium_storage_back.Auth.{
  LoginRequest, Profile, ResetPasswordRequest, TokenPair, apply_effective_quota, check_code,
  decode_hex, delete_refresh_token, delete_user_tokens, effective_quota, encode_hex,
  encode_password, generate_token, get_latest_code, get_refresh_token, get_user_by_email, has_code,
  has_email, has_hash, hash_password, hex_digit, hex_value, is_token_of, issue_token_pair, login,
  logs_in, mark_code_used, normalised, refresh, reset_password, same_bytes, save_refresh_token,
  serve, split_on, update_password, verify_email, verify_password, with_password,
}
use nexium_storage_back.Auth.Hashing.{verify_password-encode_password}
use nexium_storage_back.Auth.Sessions.{login-NeedsPassword, profile_of, refresh_once}
use nexium_storage_back.Auth.Codes.{IsCode, reset_lets_login, reset_password-NeedsCode, salt_log}
use nexium_storage_back.Auth.Accounts.{verify_email_without_code}
use nexium_storage_back.Auth.Refinement.{
  Statement, deletes, deletes_of, execute_all, get_refresh_token-replay, live_user, replay, saves,
  view,
}
use nexium_storage_back.Auth.Refusals.{LeftBy, refused_changes_nothing, token_of}
use nexium_storage_back.Server.{get_user_by_id}
use nexium_storage_back.Admin.{create_admin, insert_admin, log_async, new_admin}
use nexium_storage_back.Admin.Roles.{created_admin_cannot_log_in}
use nexium_storage_back.Examples.Fixtures.{db, fine, id_text}
use nexium_storage_back.Examples.Members.{ada, bob, members, reset_code, service}

-- The random source gives other bytes.
abbrev later : Ext
later = record fine { random = λ l. "8899aabbccddeeff" }

abbrev session : TokenPair
session = record {
  access_token = "jwt";
  refresh_token = "0011223344556677";
  profile = record { user = ada; quota_bytes = pos 1073741824 };
}

abbrev credentials : LoginRequest
credentials = record { email = "ada@x"; password = "password" }

abbrev reset_request : ResetPasswordRequest
reset_request = record { email = "ada@x"; code = "123456"; password = "another password" }

abbrev statements : List (Ext × Statement)
statements =
    (fine, saves 2 "new" 70000000)
    ∷ (record fine { fails = λ l. true }, deletes "new")
    ∷ (fine, deletes_of 1)
    ∷ []

abbrev moving : User
moving = record ada { pending_email = some "new@x" }

abbrev change_code : VerificationCode
change_code = record reset_code { purpose = "change_email" }

abbrev changing : World
changing = record {
  db = record db { users = moving ∷ bob ∷ []; verification_codes = change_code ∷ [] };
  log = [];
}

abbrev moved : Profile
moved = apply_effective_quota service (record moving { email = "new@x"; pending_email = none })

abbrev created : User
created = new_admin 77 "C" "c@x" (encode_password (17 ∷ 171 ∷ []) (1 ∷ []))

some_ne_none : {text : String} → some text ≢ none
some_ne_none e = ground arith

refresh_once_example :
    let w' = execute_all statements (refresh service "old" fine members).1 in
    (refresh service "old" later (record w' { log = [] })).0 ≡ err unauthorized
unfolding refresh get_refresh_token delete_refresh_token delete_where get_user_by_id
    issue_token_pair generate_token save_refresh_token find_by any_by effective_quota id_text
    mul_int64 int64_of_bits
refresh_once_example =
    refresh_once service "old" fine later members statements [] {pair = session} refl refl refl refl

get_refresh_token-replay_example :
    let w' = execute_all statements members in
    let l = sql "auth.GetRefreshToken" ∷ w'.log in
    (get_refresh_token "new" fine w').0 ≡ (
      if fine.fails l
      then err infra
      else live_user
          (fine.clock l)
          (replay statements members (view members.db.refresh_tokens) "new"))
unfolding any_by
get_refresh_token-replay_example =
    get_refresh_token-replay statements members "new" fine ((refl, tt))

reset_lets_login_example :
    let w' = (reset_password service reset_request fine members).1 in
    let salt = fine.random_bytes (salt_log members.log) in
    profile_of
      (login service
        (record { email = reset_request.email; password = reset_request.password })
        later
        (record w' { log = [] })).0
    ≡ some (
        apply_effective_quota service
          (with_password (encode_password salt (service.id_key reset_request.password salt)) ada))
unfolding reset_password check_code get_latest_code mark_code_used update_password
    delete_user_tokens delete_where update_where hash_password get_user_by_email find_by any_by
reset_lets_login_example =
    reset_lets_login service reset_request fine later members [] {u = ada} ((refl, (refl, tt))) refl
      refl refl (λ l. (ground arith, (ground arith, tt))) (λ password salt. (ground arith, tt))
      (λ l. refl) (λ sub iat exp. some_ne_none) refl

verify_email_without_code_example :
    profile_of (verify_email service (record { email = "ada@x"; code = "000000" }) fine members).0
    ≡ some (apply_effective_quota service ada)
unfolding find_by any_by
verify_email_without_code_example =
    verify_email_without_code service "ada@x" "000000" fine members {u = ada} refl refl (λ l. refl)
      (λ sub iat exp. some_ne_none) refl

verify_password-encode_password_example :
    verify_password service "password"
      (encode_password (17 ∷ 171 ∷ []) (service.id_key "password" (17 ∷ 171 ∷ [])))
    ≡ true
verify_password-encode_password_example =
    verify_password-encode_password service "password" (17 ∷ 171 ∷ [])
      ((ground arith, (ground arith, tt))) ((ground arith, tt))

refused_changes_nothing_example :
    LeftBy
      (token_of (logs_in (record credentials { email = "nobody" })))
      fine
      members
      (serve service (logs_in (record credentials { email = "nobody" })) fine members).1.db
unfolding serve login get_user_by_email find_by
refused_changes_nothing_example =
    refused_changes_nothing service (logs_in (record credentials { email = "nobody" })) fine members
      refl

reset_password-NeedsCode_example :
    let w' = (reset_password service reset_request fine members).1 in
    let salt = fine.random_bytes (salt_log members.log) in
    IsCode ada.id "reset_password" reset_request.code fine
      (sql "auth.GetLatestCode" ∷ sql "auth.GetUserByEmail" ∷ members.log)
      members.db
    × (find_by (has_email (normalised service reset_request.email)) w'.db.users
        ≡ some
            (with_password (encode_password salt (service.id_key reset_request.password salt)) ada))
    × (any_by (is_token_of ada.id) w'.db.refresh_tokens ≡ false)
unfolding any_by reset_password check_code get_latest_code mark_code_used update_password
    delete_user_tokens delete_where update_where hash_password get_user_by_email find_by
reset_password-NeedsCode_example =
    reset_password-NeedsCode service reset_request fine members {u = ada} ((refl, (refl, tt))) refl
      refl

login-NeedsPassword_example :
    let u = session.profile.user in
    (find_by (has_email (normalised service credentials.email)) members.db.users ≡ some u)
    × (u.is_verified ≡ true)
    × (verify_password service credentials.password u.password_hash ≡ true)
    × (any_by
          (has_hash (fine.sha256_hex session.refresh_token))
          (login service credentials fine members).1.db.refresh_tokens
        ≡ true)
unfolding login get_user_by_email encode_password encode_hex hex_digit verify_password split_on
    decode_hex hex_value same_bytes issue_token_pair generate_token save_refresh_token find_by
    any_by effective_quota id_text mul_int64 int64_of_bits
login-NeedsPassword_example =
    login-NeedsPassword service credentials fine members {pair = session} refl

created_admin_cannot_log_in_example :
    let w' = (create_admin service 1 "C" "c@x" "password" fine members).1 in
    (login service
      (record { email = "c@x"; password = "password" })
      later
      (record w' { log = [] })).0
    ≡ err (api 403 "email_not_verified")
unfolding create_admin has_code any_by hash_password insert_admin log_async
created_admin_cannot_log_in_example =
    created_admin_cannot_log_in service 1 "C" "c@x" "password" fine later members [] {u = created}
      refl (λ l. (ground arith, (ground arith, tt))) (λ password salt. (ground arith, tt)) refl
