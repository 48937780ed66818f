-- ===== src/Auth/Tokens.antt =====
-- internal/auth/service.go: the token pair, and the code that is sent by e-mail.
use nexium_storage_back.Shared.{
  ℕ, ◌+◌, ◌*◌, not, String, Option, none, some, ◌=s=◌, if◌then◌else◌, Error, bad_request, infra,
}
use nexium_storage_back.World.{
  User, VerificationCode, Action, pure, raise, ◌>>=◌, ◌>>◌, raise_if, now, uuid_text,
}
use nexium_storage_back.Mailer.{send}
use nexium_storage_back.Auth.Model.{Service, EmailTpl, TokenPair, apply_effective_quota}
use nexium_storage_back.Auth.Passwords.{hash_token, generate_token, generate_code}
use nexium_storage_back.Auth.Store.{save_refresh_token, create_verification_code, get_latest_code}

-- `if x == nil { return e }`
abbrev pub required {ℓ} : {A : Type ℓ} → Error → Option A → Action A
required e none = raise e
required e (some a) = pure a

unfoldable pub issue_token_pair : Service → User → Action TokenPair
issue_token_pair s user = do
  t ← now
  sub ← uuid_text user.id
  access_token ← required infra (s.sign s.jwt_secret sub t (t + s.jwt_access_ttl))
  raw_refresh ← generate_token
  hash ← hash_token raw_refresh
  save_refresh_token user.id hash (t + s.jwt_refresh_ttl)
  pure (record {
    access_token = access_token;
    refresh_token = raw_refresh;
    profile = apply_effective_quota s user;
  })

abbrev code_ttl : ℕ
code_ttl = 15 * 60

abbrev subject_of : Service → EmailTpl → String
subject_of s tpl = if s.locale =s= "fr" then tpl.subject_fr else tpl.subject_en

abbrev html_of : Service → EmailTpl → String → String
html_of s tpl code = if s.locale =s= "fr" then tpl.html_fr code else tpl.html_en code

unfoldable pub send_code : Service → ℕ → String → String → EmailTpl → Action (Unit {0})
send_code s user_id email purpose tpl = do
  code ← generate_code
  t ← now
  hash ← hash_token code
  create_verification_code user_id hash purpose (t + code_ttl)
  send s.mailer email (subject_of s tpl) (html_of s tpl code)

-- `if codeID == uuid.Nil || hashToken(code) != codeHash`
unfoldable pub check_code : ℕ → String → String → Action VerificationCode
check_code user_id purpose code = do
  row ← get_latest_code user_id purpose
  found ← required (bad_request "invalid or expired code") row
  hash ← hash_token code
  raise_if (not (hash =s= found.code_hash)) (bad_request "invalid or expired code")
  pure found
