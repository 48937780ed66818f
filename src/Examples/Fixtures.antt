-- ===== src/Examples/Fixtures.antt =====
-- A small database of two users, and an outside in which every call succeeds.
use Prim.Native.Char.{char}
use Prim.Native.String.count
use Prim.Native.String.{[] as []ₛ, ◌∷◌ as ◌∷ₛ◌, count}
use nexium_storage_back.Shared.{
  ℕ, zero, suc, ◌≡◌, ap, ◌∙◌, Bool, true, false, String, Option, none, some, [], ◌∷◌, pos, negsuc,
}
use nexium_storage_back.World.{
  User, Project, Bucket, File, Plan, Subscription, BillingPayment, StorageAddon, ApiKey, Webhook,
  PaymentChannel, Db, Ext, World, Remote,
}

-- Identifiers as texts: so many letters.
unfoldable pub id_text : ℕ → String
id_text zero = []ₛ
id_text (suc n) = char 97 tt ∷ₛ id_text n

unfoldable pub id_of_text : String → Option ℕ
id_of_text s = some (count s)

count-id_text : (n : ℕ) → count (id_text n) ≡ n
unfolding id_text
count-id_text zero = count.nil
count-id_text (suc n) = count.cons (char 97 tt) (id_text n) ∙ ap suc (count-id_text n)

pub id_text-parses : (n : ℕ) → id_of_text (id_text n) ≡ some n
unfolding id_of_text
id_text-parses n = ap some (count-id_text n)

abbrev gateway_says : String → Remote
gateway_says status = record {
  id = "g1";
  status = status;
  redirect_url = "https://pay";
  failure_reason = "";
}

-- Every call succeeds; the gateway reports the status.
abbrev pub outside : String → Ext
outside status = record {
  fails = λ l. false;
  clock = λ l. 50000000;
  uuid = λ l. 77;
  object_size = λ l. 10;
  object_type = λ l. "image/png";
  presigned_url = λ l. "https://r2/object";
  remote = λ l. gateway_says status;
  rows_read = λ l. none;
  http_status = λ l. 200;
  random = λ l. "0011223344556677";
  random_bytes = λ l. 17 ∷ 171 ∷ [];
  random_number = λ l. 42;
  uuid_string = id_text;
  parse_uuid = id_of_text;
  jwt_subject = λ secret token. none;
  sha256_hex = λ text. text;
}

abbrev pub fine : Ext
fine = outside "pending"

abbrev pub user : ℕ → Option ℕ → User
user id last = record {
  id = id;
  name = "U";
  email = "u@x";
  pending_email = none;
  password_hash = "h";
  is_admin = true;
  is_super_admin = false;
  is_verified = true;
  storage_quota_bytes = some (pos 1000);
  last_active_at = last;
  inactivity_warned_at = none;
}

abbrev pub project : Project
project = record { id = 5; user_id = 1; name = "p"; slug = "p" }

abbrev pub bucket : ℕ → Bool → Bucket
bucket id is_public = record {
  id = id;
  project_id = 5;
  name = "pictures";
  is_public = is_public;
  created_at = 1;
}

abbrev pub file : ℕ → ℕ → File
file id bucket_id = record {
  id = id;
  bucket_id = bucket_id;
  object_key = "7/1.png";
  filename = "a.png";
  mime_type = "image/png";
  size_bytes = 30;
  created_at = 1;
}

abbrev pub plan : ℕ → String → ℕ → ℕ → Plan
plan id slug storage price = record {
  id = id;
  name = slug;
  slug = slug;
  storage_bytes = storage;
  price_xof = price;
  max_projects = negsuc 0;
  max_file_bytes = 500;
  max_monthly_api_requests = some 10;
  addons_enabled = true;
  is_active = true;
}

abbrev pub free : Plan
free = plan 1 "free" 100 0

abbrev pub pro : Plan
pro = plan 2 "pro" 5000 900

-- A subscription to `pro` that ended at the time, and its date of deletion.
abbrev pub subscription : String → Option ℕ → Option ℕ → Subscription
subscription status end grace = record {
  user_id = 1;
  plan_id = 2;
  status = status;
  current_period_start = 1;
  current_period_end = end;
  data_grace_end = grace;
  reminded_10d_at = none;
  reminded_5d_at = none;
  reminded_2d_at = none;
  grace_reminded_15d_at = none;
  grace_reminded_7d_at = none;
  grace_reminded_1d_at = none;
}

abbrev pub payment : String → BillingPayment
payment status = record {
  id = 20;
  user_id = 1;
  plan_id = 2;
  adullam_id = some "g1";
  amount_xof = 900;
  fee_xof = 0;
  status = status;
  channel = "wave";
  phone = "01";
  redirect_url = none;
  provider = "adullam";
  country_code = "CI";
  created_at = 1;
}

abbrev pub addon : StorageAddon
addon = record {
  id = 30;
  user_id = 1;
  package_id = "10gb";
  bytes = 700;
  price_xof = 500;
  fee_xof = 0;
  adullam_id = some "g2";
  status = "completed";
  channel = "wave";
  phone = "01";
  provider = "adullam";
  country_code = "CI";
  created_at = 1;
}

-- Under the project of user 1, with the hash of the key `nx_live_k`.
abbrev pub api_key : ApiKey
api_key = record {
  id = 40;
  project_id = 5;
  name = "k";
  prefix = "nx_live_";
  key_hash = "nx_live_k";
  allowed_bucket_ids = id_text 7 ∷ [];
  last_used_at = none;
  revoked_at = none;
}

abbrev pub hook : ℕ → Bool → Webhook
hook id is_active = record {
  id = id;
  project_id = 5;
  url = "https://hook";
  secret = "whsec_s";
  events = "file.created" ∷ [];
  is_active = is_active;
  created_at = 1;
  updated_at = 1;
}

abbrev pub channel : ℕ → String → PaymentChannel
channel id slug = record {
  id = id;
  name = slug;
  slug = slug;
  logo_url = none;
  is_active = true;
  maintenance_note = none;
  display_order = pos 1;
  country_code = "CI";
  provider = "adullam";
}

abbrev pub db : Db
db = record {
  users = user 1 (some 1) ∷ user 2 (some 49999999) ∷ [];
  projects = project ∷ [];
  buckets = bucket 7 true ∷ bucket 8 false ∷ [];
  files = file 11 7 ∷ file 12 8 ∷ [];
  plans = free ∷ pro ∷ [];
  subscriptions = subscription "active" (some 40000000) none ∷ [];
  billing_payments = payment "pending" ∷ [];
  storage_addons = addon ∷ [];
  payment_channels = channel 70 "wave_ci" ∷ channel 71 "wave_sn" ∷ channel 72 "moov_ci" ∷ [];
  billing_countries = [];
  activity_logs = [];
  api_request_counts = [];
  api_keys = api_key ∷ [];
  webhooks = hook 50 true ∷ hook 51 false ∷ [];
  webhook_deliveries = [];
  refresh_tokens = [];
  verification_codes = [];
  storage_locked = none;
  schema_migrations = [];
}

abbrev pub world : World
world = record { db = db; log = [] }
