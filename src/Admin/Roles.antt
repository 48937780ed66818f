-- ===== src/Admin/Roles.antt =====
-- Whose roles internal/admin/handler.go changes, and what a new administrator can do.
use text.Mathlib.TextPositions.{eq_refl}
use nexium_storage_back.Shared.{
  ℕ, ◌≡◌, Bool, false, String, List, ◌∷◌, ◌==◌, find_by, arith, api, ok, err,
}
use nexium_storage_back.World.{User, Log, sql, random_read, Ext, World}
use nexium_storage_back.Auth.{
  Service, has_id, set_users, normalised, login, get_user_by_email, hash_password,
}
use nexium_storage_back.Auth.Hashing.{AreBytes, verify_password-encode_password}
use nexium_storage_back.Admin.Accounts.{
  log_async, create_admin, insert_admin, update_role, is_super_row, with_role,
}

-- A change of a role that returns is of another user, who is no super administrator unless that
-- query failed, and changes nothing but the flag of the rows with the identifier.
update_role_spares :
    (actor_id target_id : ℕ) (is_admin : Bool) (x : Ext) (w : World)
    → (update_role actor_id target_id is_admin x w).0 ≡ ok tt
    → x.fails (sql "admin.isSuperAdmin" ∷ w.log) ≡ false
    → ((target_id == actor_id) ≡ false)
      × (is_super_row (find_by (has_id target_id) w.db.users) ≡ false)
      × ((update_role actor_id target_id is_admin x w).1.db
          ≡ set_users (with_role is_admin) target_id w.db)
unfolding update_role log_async
update_role_spares actor target is_admin x w h up = ground arith

-- An administrator who has just been created cannot log in with the password: the account is not
-- verified.
pub created_admin_cannot_log_in :
    (s : Service) (actor_id : ℕ) (name email password : String) (x x' : Ext) (w : World) (l : Log)
    {u : User}
    → (create_admin s actor_id name email password x w).0 ≡ ok u
    → ((l' : Log) → AreBytes (x.random_bytes l'))
    → ((text : String) (salt : List ℕ) → AreBytes (s.id_key text salt))
    → x'.fails (sql "auth.GetUserByEmail" ∷ l) ≡ false
    → let w' = (create_admin s actor_id name email password x w).1 in
      (login s (record { email = email; password = password }) x' (record w' { log = l })).0
      ≡ err (api 403 "email_not_verified")
unfolding create_admin insert_admin log_async hash_password login get_user_by_email find_by
created_admin_cannot_log_in s actor name email password x x' w l h bytes key_bytes up =
    let lr : Log = random_read ∷ sql "admin.emailExists" ∷ w.log in
    let salt = x.random_bytes lr in
    ground (
      arith,
      eq_refl (normalised s email),
      verify_password-encode_password s password salt (bytes lr) (key_bytes password salt),
    )
