-- ===== src/World/Tables.antt =====
-- The rows of the tables (migrations/*.sql), with the columns that the Go code reads or writes.
-- A UUID is a number, a timestamp is in seconds since 1970, a nullable column is an `Option`.
use nexium_storage_back.Shared.{ℕ, Bool, String, Option, List, ℤ}

pub record User : Type 0 where
  pub id : ℕ
  pub name : String
  pub email : String
  pub pending_email : Option String
  pub password_hash : String
  pub is_admin : Bool
  pub is_super_admin : Bool
  pub is_verified : Bool
  pub storage_quota_bytes : Option ℤ
  pub last_active_at : Option ℕ
  pub inactivity_warned_at : Option ℕ

pub record Project : Type 0 where
  pub id : ℕ
  pub user_id : ℕ
  pub name : String
  pub slug : String

pub record Bucket : Type 0 where
  pub id : ℕ
  pub project_id : ℕ
  pub name : String
  pub is_public : Bool
  pub created_at : ℕ

pub record File : Type 0 where
  pub id : ℕ
  pub bucket_id : ℕ
  pub object_key : String
  pub filename : String
  pub mime_type : String
  pub size_bytes : ℕ
  pub created_at : ℕ

pub record Plan : Type 0 where
  pub id : ℕ
  pub name : String
  pub slug : String
  pub storage_bytes : ℕ
  pub price_xof : ℕ
  -- -1 is no limit
  pub max_projects : ℤ
  pub max_file_bytes : ℕ
  pub max_monthly_api_requests : Option ℕ
  pub addons_enabled : Bool
  pub is_active : Bool

pub record Subscription : Type 0 where
  pub user_id : ℕ
  pub plan_id : ℕ
  pub status : String
  pub current_period_start : ℕ
  pub current_period_end : Option ℕ
  pub data_grace_end : Option ℕ
  pub reminded_10d_at : Option ℕ
  pub reminded_5d_at : Option ℕ
  pub reminded_2d_at : Option ℕ
  pub grace_reminded_15d_at : Option ℕ
  pub grace_reminded_7d_at : Option ℕ
  pub grace_reminded_1d_at : Option ℕ

pub record BillingPayment : Type 0 where
  pub id : ℕ
  pub user_id : ℕ
  pub plan_id : ℕ
  pub adullam_id : Option String
  pub amount_xof : ℕ
  pub fee_xof : ℕ
  pub status : String
  pub channel : String
  pub phone : String
  pub redirect_url : Option String
  pub provider : String
  pub country_code : String
  pub created_at : ℕ

pub record StorageAddon : Type 0 where
  pub id : ℕ
  pub user_id : ℕ
  pub package_id : String
  pub bytes : ℕ
  pub price_xof : ℕ
  pub fee_xof : ℕ
  pub adullam_id : Option String
  pub status : String
  pub channel : String
  pub phone : String
  pub provider : String
  pub country_code : String
  pub created_at : ℕ

pub record PaymentChannel : Type 0 where
  pub id : ℕ
  pub name : String
  pub slug : String
  pub logo_url : Option String
  pub is_active : Bool
  pub maintenance_note : Option String
  pub display_order : ℤ
  pub country_code : String
  pub provider : String

-- `billing_countries`
pub record Country : Type 0 where
  pub code : String
  pub name : String
  pub currency_code : String
  pub currency_symbol : String
  -- `NUMERIC(14, 4)`: the number of ten-thousandths
  pub local_per_xof : ℕ
  pub flag_emoji : String
  pub is_active : Bool

pub record ActivityLog : Type 0 where
  pub id : ℕ
  pub user_id : ℕ
  pub action : String
  pub resource_type : String
  pub resource_id : String
  pub created_at : ℕ

pub record ApiRequestCount : Type 0 where
  pub user_id : ℕ
  -- year * 100 + month
  pub month : ℕ
  pub count : ℕ

pub record ApiKey : Type 0 where
  pub id : ℕ
  pub project_id : ℕ
  pub name : String
  pub prefix : String
  pub key_hash : String
  -- `NULL` is the empty list: pgx scans both into a slice of length 0
  pub allowed_bucket_ids : List String
  pub last_used_at : Option ℕ
  pub revoked_at : Option ℕ

pub record Webhook : Type 0 where
  pub id : ℕ
  pub project_id : ℕ
  pub url : String
  pub secret : String
  pub events : List String
  pub is_active : Bool
  pub created_at : ℕ
  pub updated_at : ℕ

pub record WebhookDelivery : Type 0 where
  pub id : ℕ
  pub webhook_id : ℕ
  pub event : String
  pub payload : String
  pub status_code : Option ℕ
  pub success : Bool
  pub attempts : ℕ
  -- the attempt and the status code that the message names
  pub error : Option (ℕ × ℕ)
  pub delivered_at : Option ℕ

pub record RefreshToken : Type 0 where
  pub user_id : ℕ
  pub token_hash : String
  pub expires_at : ℕ

pub record VerificationCode : Type 0 where
  pub id : ℕ
  pub user_id : ℕ
  pub code_hash : String
  pub purpose : String
  pub expires_at : ℕ
  pub used_at : Option ℕ
  pub created_at : ℕ

pub record Db : Type 0 where
  pub users : List User
  pub projects : List Project
  pub buckets : List Bucket
  pub files : List File
  pub plans : List Plan
  pub subscriptions : List Subscription
  pub billing_payments : List BillingPayment
  pub storage_addons : List StorageAddon
  pub payment_channels : List PaymentChannel
  pub billing_countries : List Country
  pub activity_logs : List ActivityLog
  pub api_request_counts : List ApiRequestCount
  pub api_keys : List ApiKey
  pub webhooks : List Webhook
  pub webhook_deliveries : List WebhookDelivery
  pub refresh_tokens : List RefreshToken
  pub verification_codes : List VerificationCode
  -- `platform_settings`, the row whose key is 'storage_locked'
  pub storage_locked : Option String
  -- `schema_migrations`
  pub schema_migrations : List String
