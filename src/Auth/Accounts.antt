-- ===== src/Auth/Accounts.antt =====
-- The accounts of internal/auth/service.go: what a registration leaves alone, what a verification
-- checks, and what the answers tell.
use nexium_storage_back.Shared.{
  ℕ, ◌+◌, ◌≡◌, ◌≢◌, refl, Bool, true, false, String, Option, none, some, List, [], ◌∷◌, ◌==◌, leb,
  find_by, find_by-ne, find_by_sound, find_by-update_where-key, any_by, select_by, update_where,
  IsKeyed, arith, ok,
}
use nexium_storage_back.World.{User, Log, sql, clock_read, uuid_new, random_read, Ext, World}
use nexium_storage_back.Mailer.{post, send}
use nexium_storage_back.Auth.{
  new_user, add_user, set_users, encode_password, EmailTpl, Service, RegisterRequest,
  apply_effective_quota, has_email, has_id, has_hash, with_account, normalised, register,
  register_for, register_new, register_again, check_registration, create_user, update_user,
  hash_password, send_code, create_verification_code, generate_code, get_user_by_email,
  verify_email, issue_token_pair, generate_token, save_refresh_token, forgot_password,
  resend_verification,
}
use nexium_storage_back.Auth.Unique.{no_id-update_where}
use nexium_storage_back.Auth.Sessions.{profile_of}

-- A user who is verified gets a pair of tokens for the e-mail and any code at all: no code is looked
-- up, and no password is asked for.
pub verify_email_without_code :
    (s : Service) (email code : String) (x : Ext) (w : World) {u : User}
    → find_by (has_email (normalised s email)) w.db.users ≡ some u
    → u.is_verified ≡ true
    → ((l : Log) → x.fails l ≡ false)
    → ((sub : String) (iat exp : ℕ) → s.sign s.jwt_secret sub iat exp ≢ none)
    → any_by
        (has_hash
          (x.sha256_hex (x.random (random_read ∷ clock_read ∷ sql "auth.GetUserByEmail" ∷ w.log))))
        w.db.refresh_tokens
      ≡ false
    → profile_of (verify_email s (record { email = email; code = code }) x w).0
      ≡ some (apply_effective_quota s u)
unfolding verify_email get_user_by_email issue_token_pair generate_token save_refresh_token
verify_email_without_code s email code x w {u = u} e v up signs fresh =
    let lc : Log = clock_read ∷ sql "auth.GetUserByEmail" ∷ w.log in
    let t = x.clock lc in
    ground (
      arith,
      signs (x.uuid_string u.id) t (t + s.jwt_access_ttl),
      up (sql "auth.GetUserByEmail" ∷ w.log),
      up (random_read ∷ lc),
      up (sql "auth.SaveRefreshToken" ∷ random_read ∷ lc),
    )

abbrev pub verified : List User → List User
verified = select_by (λ u. u.is_verified)

-- An update of the row that a query finds, which is not verified.
verified-update_where :
    (q : User → Bool) (name email hash : String) (us : List User) {u : User}
    → IsKeyed (λ (v : User). v.id) us
    → find_by q us ≡ some u
    → u.is_verified ≡ false
    → verified (update_where (has_id u.id) (with_account name email hash) us) ≡ verified us
unfolding find_by select_by update_where
verified-update_where q name email hash [] keyed e h = refl
verified-update_where q name email hash (v ∷ us) {u = u} keyed e h = ground (
  arith,
  find_by-ne (λ (y : User). y.id) (λ (y : User). y.id == v.id) q us {x = u} keyed.0,
  no_id-update_where v.id (with_account name email hash) us keyed.0,
  verified-update_where q name email hash us {u = u} keyed.1,
)

send_code-users :
    (s : Service) (id : ℕ) (email purpose : String) (tpl : EmailTpl) (x : Ext) (w : World)
    → (send_code s id email purpose tpl x w).1.db.users ≡ w.db.users
unfolding send_code generate_code create_verification_code send post
send_code-users s id email purpose tpl x w = ground arith

register_new-verified :
    (s : Service) (req : RegisterRequest) (x : Ext) (w : World)
    → verified (register_new s req x w).1.db.users ≡ verified w.db.users
unfolding register_new hash_password create_user select_by
register_new-verified s req x w =
    let salt = x.random_bytes (random_read ∷ w.log) in
    let l : Log = uuid_new ∷ clock_read ∷ random_read ∷ w.log in
    let l' : Log = sql "auth.CreateUser" ∷ l in
    let email = normalised s req.email in
    let u =
      new_user (x.uuid l) (s.trim_space req.name) email
        (encode_password salt (s.id_key req.password salt)) in
    let w1 : World = record { db = add_user u (x.clock l') w.db; log = l' } in
    ground (arith, send_code-users s (x.uuid l) email "verify_email" s.verify_email_tpl x w1)

register_again-verified :
    (s : Service) (req : RegisterRequest) (x : Ext) (w : World) (q : User → Bool) {u : User}
    → IsKeyed (λ (v : User). v.id) w.db.users
    → find_by q w.db.users ≡ some u
    → verified (register_again s req u x w).1.db.users ≡ verified w.db.users
unfolding register_again hash_password update_user
register_again-verified s req x w q {u = u} keyed e =
    let salt = x.random_bytes (random_read ∷ w.log) in
    let hash = encode_password salt (s.id_key req.password salt) in
    let l : Log = sql "auth.UpdateUser" ∷ random_read ∷ w.log in
    let w1 : World = record {
      db = set_users (with_account (s.trim_space req.name) u.email hash) u.id w.db;
      log = l;
    } in
    ground (
      arith,
      send_code-users s u.id u.email "verify_email" s.verify_email_tpl x w1,
      verified-update_where q (s.trim_space req.name) u.email hash w.db.users {u = u} keyed e,
    )

register_for-verified :
    (s : Service) (req : RegisterRequest) (x : Ext) (w : World) (q : User → Bool) (o : Option User)
    → IsKeyed (λ (v : User). v.id) w.db.users
    → find_by q w.db.users ≡ o
    → verified (register_for s req o x w).1.db.users ≡ verified w.db.users
register_for-verified s req x w q none keyed e = register_new-verified s req x w
register_for-verified s req x w q (some u) keyed e =
    register_again-verified s req x w q {u = u} keyed e

-- A registration, whether it returns or fails, leaves every verified account as it was.
pub register_keeps_verified :
    (s : Service) (req : RegisterRequest) (x : Ext) (w : World)
    → IsKeyed (λ (v : User). v.id) w.db.users
    → verified (register s req x w).1.db.users ≡ verified w.db.users
unfolding register check_registration get_user_by_email
register_keeps_verified s req x w keyed =
    let email = normalised s req.email in
    let w1 : World = record { db = w.db; log = sql "auth.GetUserByEmail" ∷ w.log } in
    ground (
      arith,
      register_for-verified s req x w1 (has_email email) (find_by (has_email email) w.db.users)
          keyed refl,
    )

-- A recovery and a resend do not tell whether there is an account: where no call
-- fails and the mail service accepts, both return for every e-mail.
recovery_tells_nothing :
    (s : Service) (email : String) (x : Ext) (w : World)
    → ((l : Log) → x.fails l ≡ false)
    → ((l : Log) → leb 300 (x.http_status l) ≡ false)
    → ((forgot_password s email x w).0 ≡ ok tt) × ((resend_verification s email x w).0 ≡ ok tt)
unfolding forgot_password resend_verification get_user_by_email send_code generate_code
    create_verification_code send post
recovery_tells_nothing s email x w up accepts = grind (arith, up, accepts)

-- A registration for the e-mail of an account that is not verified, by anyone, replaces its name and
-- its password, and leaves the rest of it, its roles included.
pub register_replaces_password :
    (s : Service) (req : RegisterRequest) (x : Ext) (w : World) {u : User} {email : String}
    → IsKeyed (λ (v : User). v.id) w.db.users
    → find_by (has_email (normalised s req.email)) w.db.users ≡ some u
    → (register s req x w).0 ≡ ok email
    → let salt = x.random_bytes (random_read ∷ sql "auth.GetUserByEmail" ∷ w.log) in
      (u.is_verified ≡ false)
      × (find_by (has_email (normalised s req.email)) (register s req x w).1.db.users
          ≡ some (
              with_account
                (s.trim_space req.name)
                u.email
                (encode_password salt (s.id_key req.password salt))
                u))
unfolding register check_registration get_user_by_email register_again hash_password update_user
register_replaces_password s req x w {u = u} keyed e h =
    let l : Log = sql "auth.GetUserByEmail" ∷ w.log in
    let salt = x.random_bytes (random_read ∷ l) in
    let hash = encode_password salt (s.id_key req.password salt) in
    let q = has_email (normalised s req.email) in
    let f = with_account (s.trim_space req.name) u.email hash in
    let w1 : World = record {
      db = set_users f u.id w.db;
      log = sql "auth.UpdateUser" ∷ random_read ∷ l;
    } in
    ground (
      arith,
      send_code-users s u.id u.email "verify_email" s.verify_email_tpl x w1,
      find_by_sound q w.db.users {x = u} e,
      find_by-update_where-key (λ (v : User). v.id) q f w.db.users {x = u} keyed e,
    )
