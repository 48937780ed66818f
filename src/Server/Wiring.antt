-- ===== src/Server/Wiring.antt =====
-- The functions that cmd/server/main.go injects, and the services that they are injected into.
use nexium_storage_back.Shared.{
  ℕ, ◌*◌, Bool, true, false, String, Option, none, some, ◌==◌, ◌=s=◌, find_by, update_where, ℤ,
  negsuc, mul_int64, infra,
}
use nexium_storage_back.World.{User, Bucket, Db, Action, query, exec, pure, raise, ◌>>=◌}
use nexium_storage_back.Buckets.{get_by_id_and_user}
use nexium_storage_back.Billing.{Service as BillingService, get_user_file_size_limit}
use nexium_storage_back.Files.{Service as FileService}

-- The column of the user, or -1 where it is `NULL`.
abbrev quota_or_default : Option ℤ → ℤ
quota_or_default none = negsuc 0
quota_or_default (some q) = q

unfoldable pub stored_quota : Db → ℕ → Option ℤ
stored_quota db user_id = elim (find_by (λ (u : User). u.id == user_id) db.users) [
  | none ↦ none
  | some u ↦ some (quota_or_default u.storage_quota_bytes)
]

-- A user who is not in the table is an error of the scan, `pgx.ErrNoRows`.
abbrev scanned {ℓ} : {A : Type ℓ} → Option A → Action A
scanned none = raise infra
scanned (some a) = pure a

unfoldable pub get_storage_quota : ℕ → Action ℤ
get_storage_quota user_id = do
  row ← query "auth.GetStorageQuota" (λ _ db. stored_quota db user_id)
  scanned row

unfoldable pub set_storage_quota : ℕ → Option ℤ → Action (Unit {0})
set_storage_quota user_id quota_bytes = exec "auth.SetStorageQuota" (λ _ db. record db {
  users =
      update_where (λ (u : User). u.id == user_id)
        (λ u. record u { storage_quota_bytes = quota_bytes }) db.users;
})

unfoldable pub get_user_by_id : ℕ → Action (Option User)
get_user_by_id id = query "auth.GetUserByID" (λ _ db. find_by (λ (u : User). u.id == id) db.users)

abbrev info_of : Option User → String × String
info_of none = ("", "")
info_of (some u) = (u.name, u.email)

unfoldable pub user_info : ℕ → Action (String × String)
user_info user_id = do u ← get_user_by_id user_id; pure (info_of u)

abbrev is_true : String → Bool
is_true val = val =s= "true"

unfoldable pub is_platform_locked : Action Bool
is_platform_locked = do
  row ← query "IsPlatformLocked" (λ _ db. db.storage_locked)
  val ← scanned row
  pure (is_true val)

abbrev exists_and_public : Option Bucket → Bool × Bool
exists_and_public none = (false, false)
exists_and_public (some b) = (true, b.is_public)

unfoldable pub check_bucket : ℕ → ℕ → Action (Bool × Bool)
check_bucket bucket_id user_id = do
  b ← get_by_id_and_user bucket_id user_id
  pure (exists_and_public b)

-- `billing.NewService(...)`, with the mail service and strings.ToUpper.
unfoldable pub billing_service : Bool → (String → String) → BillingService
billing_service sends_mail to_upper = record {
  set_quota = set_storage_quota;
  get_user_info = user_info;
  sends_mail = sends_mail;
  to_upper = to_upper;
}

-- `files.NewService(...)`, with the quota of the configuration in gigabytes. The
-- product is an int64.
unfoldable pub file_service :
    ℤ → String → String → (String → String) → (String → String → Bool) → FileService
file_service storage_quota_gb app_url cdn_url trim_space contains = record {
  check_bucket = check_bucket;
  default_quota = mul_int64 storage_quota_gb (1024 * 1024 * 1024);
  get_user_quota = get_storage_quota;
  get_user_file_size_limit = some get_user_file_size_limit;
  is_platform_locked = is_platform_locked;
  app_url = app_url;
  cdn_url = cdn_url;
  trim_space = trim_space;
  contains = contains;
}
