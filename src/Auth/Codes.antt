-- ===== src/Auth/Codes.antt =====
-- The codes of internal/auth/service.go that are sent by e-mail: what one opens, and what is done
-- without one.
use nexium_storage_back.Shared.{
  List, ◌+◌, ◌≢◌, find_by-update_where-key, find_by_sound, IsKeyed, ℕ, ◌≡◌, Bool, true, false,
  String, none, some, ◌∷◌, ◌=s=◌, find_by, any_by, any_by-delete_where, arith, ok, not, ◌&&◌, [],
  refl, update_where,
}
use nexium_storage_back.World.{
  User, Db, Log, sql, clock_read, random_read, Ext, World, VerificationCode,
}
use nexium_storage_back.Auth.Hashing.{AreBytes, verify_password-encode_password}
use nexium_storage_back.Auth.Sessions.{profile_of}
use nexium_storage_back.Auth.{
  ResetPasswordRequest, login, issue_token_pair, generate_token, save_refresh_token,
  apply_effective_quota, encode_password, has_hash, with_password, Service, is_token_of, has_email,
  is_usable, get_user_by_email, get_latest_code, mark_code_used, update_password,
  delete_user_tokens, check_code, hash_password, reset_password, normalised, has_code_id,
}

-- The live code of the user and the purpose that a statement at the log finds has the hash of the
-- text.
abbrev pub IsCode : ℕ → String → String → Ext → Log → Db → Type 0
IsCode user_id purpose code x l db =
    (elim (find_by (is_usable user_id purpose (x.clock l)) db.verification_codes) as (λ _. Bool) [
      | none ↦ false
      | some c ↦ x.sha256_hex code =s= c.code_hash
    ])
    ≡ true

-- The log of a reset, up to the salt.
abbrev pub salt_log : Log → Log
salt_log l = random_read ∷ sql "auth.GetLatestCode" ∷ sql "auth.GetUserByEmail" ∷ l

-- The row with the e-mail, after a reset that returns.
reset_password-row :
    (s : Service) (req : ResetPasswordRequest) (x : Ext) (w : World) {u : User}
    → IsKeyed (λ (v : User). v.id) w.db.users
    → (reset_password s req x w).0 ≡ ok tt
    → find_by (has_email (normalised s req.email)) w.db.users ≡ some u
    → let salt = x.random_bytes (salt_log w.log) in
      find_by (has_email (normalised s req.email)) (reset_password s req x w).1.db.users
      ≡ some (with_password (encode_password salt (s.id_key req.password salt)) u)
unfolding reset_password get_user_by_email check_code get_latest_code hash_password mark_code_used
    update_password delete_user_tokens
reset_password-row s req x w {u = u} keyed h e =
    let email = normalised s req.email in
    let salt = x.random_bytes (salt_log w.log) in
    ground (
      arith,
      find_by-update_where-key (λ (v : User). v.id) (has_email email)
          (with_password (encode_password salt (s.id_key req.password salt))) w.db.users {x = u}
          keyed e,
      find_by_sound (has_email email) w.db.users {x = u} e,
    )

-- A reset that returns had a live code of the user with the e-mail. Where identifiers are distinct, it
-- leaves that user's row as it was but for the hash of the new password, and the user without any
-- session.
pub reset_password-NeedsCode :
    (s : Service) (req : ResetPasswordRequest) (x : Ext) (w : World) {u : User}
    → IsKeyed (λ (v : User). v.id) w.db.users
    → (reset_password s req x w).0 ≡ ok tt
    → find_by (has_email (normalised s req.email)) w.db.users ≡ some u
    → let w' = (reset_password s req x w).1 in
      let salt = x.random_bytes (salt_log w.log) in
      IsCode u.id "reset_password" req.code x
        (sql "auth.GetLatestCode" ∷ sql "auth.GetUserByEmail" ∷ w.log)
        w.db
      × (find_by (has_email (normalised s req.email)) w'.db.users
          ≡ some (with_password (encode_password salt (s.id_key req.password salt)) u))
      × (any_by (is_token_of u.id) w'.db.refresh_tokens ≡ false)
unfolding reset_password get_user_by_email check_code get_latest_code hash_password mark_code_used
    update_password delete_user_tokens
reset_password-NeedsCode s req x w {u = u} keyed h e = (
  ground arith,
  reset_password-row s req x w {u = u} keyed h e,
  ground (arith, any_by-delete_where (is_token_of u.id) w.db.refresh_tokens),
)

-- Whoever resets a password can log in with it: after a reset that returns, a login of the verified
-- user with the new password returns a pair, where no call fails, tokens can be signed and the new
-- token is new.
pub reset_lets_login :
    (s : Service) (req : ResetPasswordRequest) (x x' : Ext) (w : World) (l : Log) {u : User}
    → IsKeyed (λ (v : User). v.id) w.db.users
    → find_by (has_email (normalised s req.email)) w.db.users ≡ some u
    → u.is_verified ≡ true
    → (reset_password s req x w).0 ≡ ok tt
    → ((l' : Log) → AreBytes (x.random_bytes l'))
    → ((password : String) (salt : List ℕ) → AreBytes (s.id_key password salt))
    → ((l' : Log) → x'.fails l' ≡ false)
    → ((sub : String) (iat exp : ℕ) → s.sign s.jwt_secret sub iat exp ≢ none)
    → let w' = (reset_password s req x w).1 in
      any_by
          (has_hash
            (x'.sha256_hex (x'.random (random_read ∷ clock_read ∷ sql "auth.GetUserByEmail" ∷ l))))
          w'.db.refresh_tokens
        ≡ false
      → let salt = x.random_bytes (salt_log w.log) in
        profile_of
          (login s
            (record { email = req.email; password = req.password })
            x'
            (record w' { log = l })).0
        ≡ some (
            apply_effective_quota s
              (with_password (encode_password salt (s.id_key req.password salt)) u))
unfolding login get_user_by_email issue_token_pair generate_token save_refresh_token
reset_lets_login s req x x' w l {u = u} keyed e verified h bytes key_bytes up signs fresh =
    let salt = x.random_bytes (salt_log w.log) in
    let lc = clock_read ∷ sql "auth.GetUserByEmail" ∷ l in
    let t = x'.clock lc in
    ground (
      arith,
      reset_password-row s req x w {u = u} keyed h e,
      verify_password-encode_password s req.password salt (bytes (salt_log w.log))
          (key_bytes req.password salt),
      signs (x'.uuid_string u.id) t (t + s.jwt_access_ttl),
      up (sql "auth.GetUserByEmail" ∷ l),
      up (random_read ∷ lc),
      up (sql "auth.SaveRefreshToken" ∷ random_read ∷ lc),
    )

-- Where no other code has the hash, no live code has it once the code is used.
used_code :
    (user_id id t t' : ℕ) (purpose hash : String) (cs : List VerificationCode)
    → any_by (λ d. not (has_code_id id d) && hash =s= d.code_hash) cs ≡ false
    → (elim (find_by
          (is_usable user_id purpose t')
          (update_where (has_code_id id) (λ c. record c { used_at = some t }) cs))
        as (λ _. Bool) [ none ↦ false | some c ↦ hash =s= c.code_hash ])
      ≡ false
unfolding find_by any_by update_where
used_code user_id id t t' purpose hash [] h = refl
used_code user_id id t t' purpose hash (c ∷ cs) h =
    ground (arith, used_code user_id id t t' purpose hash cs)

-- A code opens one reset: after a reset that returns, the same request is refused from then on,
-- unless another code has the same hash.
pub reset_password_once :
    (s : Service) (req : ResetPasswordRequest) (x x' : Ext) (w : World) (l : Log) {u : User}
    {c : VerificationCode}
    → find_by (has_email (normalised s req.email)) w.db.users ≡ some u
    → find_by
        (is_usable u.id "reset_password"
          (x.clock (sql "auth.GetLatestCode" ∷ sql "auth.GetUserByEmail" ∷ w.log)))
        w.db.verification_codes
      ≡ some c
    → (reset_password s req x w).0 ≡ ok tt
    → x'.sha256_hex req.code ≡ x.sha256_hex req.code
    → any_by
        (λ d. not (has_code_id c.id d) && x.sha256_hex req.code =s= d.code_hash)
        w.db.verification_codes
      ≡ false
    → IsKeyed (λ (v : User). v.id) w.db.users
    → (reset_password s req x' (record (reset_password s req x w).1 { log = l })).0 ≢ ok tt
unfolding reset_password get_user_by_email check_code get_latest_code hash_password mark_code_used
    update_password delete_user_tokens
reset_password_once s req x x' w l {u = u} {c = c} e f h same other keyed again =
    let l1 : Log = sql "auth.GetLatestCode" ∷ sql "auth.GetUserByEmail" ∷ w.log in
    let l' : Log = sql "auth.GetLatestCode" ∷ sql "auth.GetUserByEmail" ∷ l in
    ground (
      arith,
      reset_password-row s req x w {u = u} keyed h e,
      used_code u.id c.id (x.clock (sql "auth.MarkCodeUsed" ∷ random_read ∷ l1)) (x'.clock l')
          "reset_password" (x.sha256_hex req.code) w.db.verification_codes other,
    )
