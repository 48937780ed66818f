-- ===== src/Auth/Store.antt =====
-- internal/auth/store.go: the SQL statements on `users`, `refresh_tokens` and
-- `verification_codes`. GetStorageQuota, SetStorageQuota and GetUserByID are in Server/Wiring.
use nexium_storage_back.Shared.{
  ℕ, Bool, true, false, not, ◌&&◌, ◌||◌, String, Option, none, some, ◌∷◌, ◌==◌, ◌=s=◌, ltb, find_by,
  any_by, update_where, delete_where, infra,
}
use nexium_storage_back.World.{
  User, RefreshToken, VerificationCode, Db, Action, ◌>>=◌, pure, raise, query, exec, exec_unique,
  new_uuid,
}

abbrev pub has_email : String → User → Bool
has_email email u = u.email =s= email

abbrev pub has_id : ℕ → User → Bool
has_id id u = u.id == id

abbrev pub add_user : User → ℕ → Db → Db
add_user u t db = record db { users = record u { last_active_at = some t } ∷ db.users }

-- `email` is `UNIQUE`, and `id` the primary key.
unfoldable pub create_user : User → Action (Unit {0})
create_user u =
    exec_unique "auth.CreateUser"
      (λ db. any_by (λ v. has_email u.email v || has_id u.id v) db.users) (add_user u)

unfoldable pub get_user_by_email : String → Action (Option User)
get_user_by_email email = query "auth.GetUserByEmail" (λ _ db. find_by (has_email email) db.users)

abbrev pub set_users : (User → User) → ℕ → Db → Db
set_users f id db = record db { users = update_where (has_id id) f db.users }

abbrev pub with_account : String → String → String → User → User
with_account name email password_hash u = record u {
  name = name;
  email = email;
  password_hash = password_hash;
}

-- The new e-mail of the row is another row's.
abbrev pub takes_email : ℕ → String → Db → Bool
takes_email id email db =
    any_by (has_id id) db.users && any_by (λ u. not (has_id id u) && has_email email u) db.users

unfoldable pub update_user : ℕ → String → String → String → Action (Unit {0})
update_user id name email password_hash =
    exec_unique "auth.UpdateUser" (takes_email id email)
      (λ _. set_users (with_account name email password_hash) id)

abbrev pub with_verified : User → User
with_verified u = record u { is_verified = true }

unfoldable pub set_verified : ℕ → Action (Unit {0})
set_verified id = exec "auth.SetVerified" (λ _. set_users with_verified id)

abbrev pub with_password : String → User → User
with_password hash u = record u { password_hash = hash }

unfoldable pub update_password : ℕ → String → Action (Unit {0})
update_password id hash = exec "auth.UpdatePassword" (λ _. set_users (with_password hash) id)

abbrev pub with_pending : Option String → User → User
with_pending email u = record u { pending_email = email }

unfoldable pub set_pending_email : ℕ → String → Action (Unit {0})
set_pending_email id email =
    exec "auth.SetPendingEmail" (λ _. set_users (with_pending (some email)) id)

unfoldable pub clear_pending_email : ℕ → Action (Unit {0})
clear_pending_email id = exec "auth.ClearPendingEmail" (λ _. set_users (with_pending none) id)

unfoldable touch_activity : ℕ → Action (Unit {0})
touch_activity id =
    exec "auth.TouchActivity"
      (λ t. set_users (λ u. record u { last_active_at = some t; inactivity_warned_at = none }) id)

abbrev pub has_hash : String → RefreshToken → Bool
has_hash hash t = t.token_hash =s= hash

abbrev pub is_token_of : ℕ → RefreshToken → Bool
is_token_of user_id t = t.user_id == user_id

abbrev pub add_token : RefreshToken → Db → Db
add_token tok db = record db { refresh_tokens = tok ∷ db.refresh_tokens }

abbrev pub remove_tokens : (RefreshToken → Bool) → Db → Db
remove_tokens p db = record db { refresh_tokens = delete_where p db.refresh_tokens }

-- `token_hash` is `UNIQUE`.
unfoldable pub save_refresh_token : ℕ → String → ℕ → Action (Unit {0})
save_refresh_token user_id hash expires_at =
    exec_unique "auth.SaveRefreshToken" (λ db. any_by (has_hash hash) db.refresh_tokens)
      (λ _. add_token (record { user_id = user_id; token_hash = hash; expires_at = expires_at }))

abbrev pub is_live : String → ℕ → RefreshToken → Bool
is_live hash t tok = has_hash hash tok && ltb t tok.expires_at

-- No row is an error of its own.
abbrev pub owner_or_error : Option RefreshToken → Action ℕ
owner_or_error none = raise infra
owner_or_error (some tok) = pure tok.user_id

unfoldable pub get_refresh_token : String → Action ℕ
get_refresh_token hash = do
  row ← query "auth.GetRefreshToken" (λ t db. find_by (is_live hash t) db.refresh_tokens)
  owner_or_error row

unfoldable pub delete_refresh_token : String → Action (Unit {0})
delete_refresh_token hash = exec "auth.DeleteRefreshToken" (λ _. remove_tokens (has_hash hash))

unfoldable pub delete_user_tokens : ℕ → Action (Unit {0})
delete_user_tokens user_id = exec "auth.DeleteUserTokens" (λ _. remove_tokens (is_token_of user_id))

abbrev new_code : ℕ → ℕ → String → String → ℕ → VerificationCode
new_code id user_id hash purpose expires_at = record {
  id = id;
  user_id = user_id;
  code_hash = hash;
  purpose = purpose;
  expires_at = expires_at;
  used_at = none;
  created_at = 0;
}

abbrev pub add_code : VerificationCode → ℕ → Db → Db
add_code c t db = record db {
  verification_codes = record c { created_at = t } ∷ db.verification_codes;
}

-- The codes are kept newest first, in the order in which they were created.
unfoldable pub create_verification_code : ℕ → String → String → ℕ → Action (Unit {0})
create_verification_code user_id hash purpose expires_at = do
  id ← new_uuid
  exec "auth.CreateVerificationCode" (add_code (new_code id user_id hash purpose expires_at))

abbrev is_unused : Option ℕ → Bool
is_unused none = true
is_unused (some t) = false

abbrev pub is_usable : ℕ → String → ℕ → VerificationCode → Bool
is_usable user_id purpose t c =
    c.user_id == user_id && (c.purpose =s= purpose && (is_unused c.used_at && ltb t c.expires_at))

-- No row is `uuid.Nil`.
unfoldable pub get_latest_code : ℕ → String → Action (Option VerificationCode)
get_latest_code user_id purpose =
    query "auth.GetLatestCode" (λ t db. find_by (is_usable user_id purpose t) db.verification_codes)

abbrev pub has_code_id : ℕ → VerificationCode → Bool
has_code_id id c = c.id == id

abbrev pub use_code : ℕ → ℕ → Db → Db
use_code id t db = record db {
  verification_codes =
      update_where (has_code_id id) (λ c. record c { used_at = some t }) db.verification_codes;
}

unfoldable pub mark_code_used : ℕ → Action (Unit {0})
mark_code_used id = exec "auth.MarkCodeUsed" (use_code id)
