-- ===== src/Admin/Accounts.antt =====
-- internal/admin/handler.go: administrators are created, and roles are given and taken.
use Prim.Native.String.{len}
use nexium_storage_back.Shared.{
  ℕ, Bool, true, false, not, ◌||◌, String, Option, none, some, ◌==◌, ◌=s=◌, ltb, if◌then◌else◌,
  find_by, any_by, bad_request, conflict, forbidden, Result, ok, err,
}
use nexium_storage_back.World.{
  User, Action, spawn, pure, attempt, ◌>>=◌, ◌>>◌, raise_if, read, query, exec, exec_unique, now,
  new_uuid,
}
use nexium_storage_back.Auth.{
  Service, has_code, has_email, has_id, add_user, set_users, normalised, hash_password,
}

-- internal/logs/store.go: `Async` starts a goroutine, whose statement is `insert_log` of Logs/Store.
unfoldable pub log_async : ℕ → String → Action (Unit {0})
log_async actor_id action = read (λ x l. tt) (spawn action actor_id)

-- `Scan` leaves `false` where the query ends in an error.
abbrev or_false : Result Bool → Bool
or_false (ok b) = b
or_false (err e) = false

abbrev pub new_admin : ℕ → String → String → String → User
new_admin id name email hash = record {
  id = id;
  name = name;
  email = email;
  pending_email = none;
  password_hash = hash;
  is_admin = true;
  is_super_admin = false;
  is_verified = false;
  storage_quota_bytes = none;
  last_active_at = none;
  inactivity_warned_at = none;
}

-- The columns that the statement leaves out take their defaults: `is_verified` is false
-- (migrations/006_email_verification.sql).
unfoldable pub insert_admin : User → Action (Unit {0})
insert_admin u =
    exec_unique "admin.createAdmin"
      (λ db. any_by (λ v. has_email u.email v || has_id u.id v) db.users) (add_user u)

unfoldable pub create_admin : Service → ℕ → String → String → String → Action User
create_admin s actor_id requested_name requested_email password = do
  let name = s.trim_space requested_name
  let email = normalised s requested_email
  raise_if (name =s= "" || not (has_code 64 email))
      (bad_request "name and valid email are required")
  raise_if (ltb (len password) 8) (bad_request "password must be at least 8 characters")
  taken ← attempt (query "admin.emailExists" (λ _ db. any_by (has_email email) db.users))
  raise_if (or_false taken) (conflict "email already registered")
  hash ← hash_password s password
  id ← new_uuid
  now
  insert_admin (new_admin id name email hash)
  log_async actor_id "admin.user.create"
  pure (new_admin id name email hash)

-- No row is an error, too.
abbrev pub is_super_row : Option User → Bool
is_super_row none = false
is_super_row (some u) = u.is_super_admin

abbrev pub with_role : Bool → User → User
with_role is_admin u = record u { is_admin = is_admin }

unfoldable pub update_role : ℕ → ℕ → Bool → Action (Unit {0})
update_role actor_id target_id is_admin = do
  raise_if (target_id == actor_id) (bad_request "cannot change your own role")
  target ←
      attempt
        (query "admin.isSuperAdmin" (λ _ db. is_super_row (find_by (has_id target_id) db.users)))
  raise_if (or_false target) forbidden
  exec "admin.updateRole" (λ _. set_users (with_role is_admin) target_id)
  log_async actor_id (if is_admin then "admin.role.grant" else "admin.role.revoke")
