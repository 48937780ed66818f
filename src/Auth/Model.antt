-- ===== src/Auth/Model.antt =====
-- internal/auth/model.go, and what the service of internal/auth/service.go holds.
use nexium_storage_back.Shared.{ℕ, ◌*◌, Bool, String, Option, none, some, List, ℤ, mul_int64}
use nexium_storage_back.World.{User}
use nexium_storage_back.Mailer.{Mailer}

pub record EmailTpl : Type 0 where
  pub subject_en : String
  pub subject_fr : String
  -- the texts around the code
  pub html_en : String → String
  pub html_fr : String → String

pub record Service : Type 0 where
  pub mailer : Mailer
  pub storage_quota_gb : ℤ
  pub jwt_secret : String
  pub jwt_access_ttl : ℕ
  pub jwt_refresh_ttl : ℕ
  pub verify_email_tpl : EmailTpl
  pub change_email_tpl : EmailTpl
  pub reset_password_tpl : EmailTpl
  -- the locale that `WithLocale` puts into the context of the request
  pub locale : String
  -- strings.TrimSpace and strings.ToLower
  pub trim_space : String → String
  pub to_lower : String → String
  -- `argon2.IDKey(password, salt, 1, 64*1024, 4, 32)`, of golang.org/x/crypto
  pub id_key : String → List ℕ → List ℕ
  -- the token of the subject, with its times, signed by the secret: of github.com/golang-jwt/jwt
  pub sign : String → String → ℕ → ℕ → Option String

pub record UpdateProfileRequest : Type 0 where
  pub name : String
  pub current_password : String
  pub new_password : String

pub record RegisterRequest : Type 0 where
  pub name : String
  pub email : String
  pub password : String
  pub terms_accepted : Bool

pub record LoginRequest : Type 0 where
  pub email : String
  pub password : String

pub record VerifyEmailRequest : Type 0 where
  pub email : String
  pub code : String

pub record ResetPasswordRequest : Type 0 where
  pub email : String
  pub code : String
  pub password : String

-- A user as it is sent: `QuotaBytes` stands beside the row.
pub record Profile : Type 0 where
  pub user : User
  pub quota_bytes : ℤ

pub record TokenPair : Type 0 where
  pub access_token : String
  pub refresh_token : String
  pub profile : Profile

-- `NULL` is the default of the platform, and 0 is no limit.
unfoldable pub effective_quota : ℤ → Option ℤ → ℤ
effective_quota gb none = mul_int64 gb (1024 * 1024 * 1024)
effective_quota gb (some q) = q

abbrev pub apply_effective_quota : Service → User → Profile
apply_effective_quota s u = record {
  user = u;
  quota_bytes = effective_quota s.storage_quota_gb u.storage_quota_bytes;
}
