-- ===== src/Config.antt =====
-- pkg/config/config.go: the configuration that is read from the environment.
use nexium_storage_back.Shared.{
  ℕ, ◌≡◌, Bool, false, ◌||◌, String, Option, none, some, ◌=s=◌, if◌then◌else◌, ℤ, arith,
}

-- The environment, after `godotenv.Load`; an unset variable is "". What `time.ParseDuration` and
-- `strconv.ParseInt` make of a text: the second one gives 0 where the text is no number.
pub record Environment : Type 0 where
  pub variable : String → String
  pub parse_duration : String → Option ℕ
  pub parse_int : String → ℤ

pub record Config : Type 0 where
  pub database_url : String
  pub jwt_secret : String
  pub jwt_access_ttl : ℕ
  pub jwt_refresh_ttl : ℕ
  pub port : String
  pub app_url : String
  pub r2_account_id : String
  pub r2_access_key_id : String
  pub r2_secret_key : String
  pub r2_bucket_name : String
  pub r2_public_url : String
  pub cdn_url : String
  pub max_file_size_mb : ℤ
  pub storage_quota_gb : ℤ
  pub mailjet_api_key : String
  pub mailjet_secret_key : String
  pub mail_from : String
  pub mail_from_name : String
  pub adullam_api_key : String
  pub adullam_webhook_secret : String
  pub saspay_api_key : String
  pub saspay_webhook_secret : String
  pub super_admin_email : String

-- `getEnv`
abbrev get_env : Environment → String → String → String
get_env e key fallback = let v = e.variable key in if v =s= "" then fallback else v

-- `mustEnv` ends the program on an empty variable.
abbrev is_missing : Environment → String → Bool
is_missing e key = e.variable key =s= ""

abbrev is_incomplete : Environment → Bool
is_incomplete e =
    is_missing e "DATABASE_URL"
    || (is_missing e "JWT_SECRET"
        || (is_missing e "R2_ACCOUNT_ID"
            || (is_missing e "R2_ACCESS_KEY_ID"
                || (is_missing e "R2_SECRET_ACCESS_KEY" || is_missing e "R2_BUCKET_NAME"))))

abbrev config_of : Environment → ℕ → ℕ → Config
config_of e access refresh = record {
  database_url = e.variable "DATABASE_URL";
  jwt_secret = e.variable "JWT_SECRET";
  jwt_access_ttl = access;
  jwt_refresh_ttl = refresh;
  port = get_env e "PORT" "8080";
  app_url = get_env e "APP_URL" "http://localhost:8080";
  r2_account_id = e.variable "R2_ACCOUNT_ID";
  r2_access_key_id = e.variable "R2_ACCESS_KEY_ID";
  r2_secret_key = e.variable "R2_SECRET_ACCESS_KEY";
  r2_bucket_name = e.variable "R2_BUCKET_NAME";
  r2_public_url = get_env e "R2_PUBLIC_URL" "";
  cdn_url = get_env e "CDN_URL" "";
  max_file_size_mb = e.parse_int (get_env e "MAX_FILE_SIZE_MB" "100");
  storage_quota_gb = e.parse_int (get_env e "STORAGE_QUOTA_GB" "10");
  mailjet_api_key = get_env e "MAILJET_API_KEY" "";
  mailjet_secret_key = get_env e "MAILJET_SECRET_KEY" "";
  mail_from = get_env e "MAIL_FROM" "";
  mail_from_name = get_env e "MAIL_FROM_NAME" "NEXIUM Storage";
  adullam_api_key = get_env e "ADULLAM_API_KEY" "";
  adullam_webhook_secret = get_env e "ADULLAM_WEBHOOK_SECRET" "";
  saspay_api_key = get_env e "SASPAY_API_KEY" "";
  saspay_webhook_secret = get_env e "SASPAY_WEBHOOK_SECRET" "";
  super_admin_email = get_env e "SUPER_ADMIN_EMAIL" "";
}

-- `Load`, none where it ends the program.
unfoldable load : Environment → Option Config
load e = elim (e.parse_duration (get_env e "JWT_ACCESS_TTL" "15m")) [
  | none ↦ none
  | some access ↦ elim (e.parse_duration (get_env e "JWT_REFRESH_TTL" "168h")) [
    | none ↦ none
    | some refresh ↦ if is_incomplete e then none else some (config_of e access refresh)
  ]
]

-- A server that has started has a secret for its tokens and an address of its database.
load_has_secrets :
    (e : Environment) {c : Config}
    → load e ≡ some c
    → ((c.jwt_secret =s= "") ≡ false) × ((c.database_url =s= "") ≡ false)
unfolding load
load_has_secrets e h = (ground arith, ground arith)
