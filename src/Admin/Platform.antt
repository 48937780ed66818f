-- ===== src/Admin/Platform.antt =====
-- internal/admin/handler.go: the quota of a user, the lock of the platform, and the numbers of it.
use nexium_storage_back.Shared.{
  ℕ, ◌*◌, Bool, true, false, String, Option, none, some, ◌=s=◌, length, sum_where, ℤ, mul_int64,
  Result, ok, err,
}
use nexium_storage_back.World.{User, File, Db, Action, pure, attempt, ◌>>=◌, ◌>>◌, query, exec}
use nexium_storage_back.Auth.{set_users}
use nexium_storage_back.Admin.Accounts.{log_async}

abbrev pub with_quota : Option ℤ → User → User
with_quota quota u = record u { storage_quota_bytes = quota }

-- The product is an int64.
abbrev pub gigabytes : Option ℤ → Option ℤ
gigabytes none = none
gigabytes (some gb) = some (mul_int64 gb (1024 * 1024 * 1024))

unfoldable pub set_user_quota : ℕ → ℕ → Option ℤ → Action (Unit {0})
set_user_quota actor_id target_id quota_gb = do
  exec "admin.setUserQuota" (λ _. set_users (with_quota (gigabytes quota_gb)) target_id)
  log_async actor_id "admin.user.quota"

unfoldable pub lock_platform : ℕ → Action (Unit {0})
lock_platform actor_id = do
  exec "admin.lockPlatform" (λ _ db. record db { storage_locked = some "true" })
  log_async actor_id "admin.platform.lock"

unfoldable unlock_platform : ℕ → Action (Unit {0})
unlock_platform actor_id = do
  exec "admin.unlockPlatform" (λ _ db. record db { storage_locked = some "false" })
  log_async actor_id "admin.platform.unlock"

pub record Stats : Type 0 where
  pub user_count : ℕ
  pub project_count : ℕ
  pub bucket_count : ℕ
  pub file_count : ℕ
  pub storage_bytes : ℕ
  pub quota_bytes : ℤ
  pub storage_locked : Bool

abbrev no_stats : ℤ → Stats
no_stats quota_gb = record {
  user_count = 0;
  project_count = 0;
  bucket_count = 0;
  file_count = 0;
  storage_bytes = 0;
  quota_bytes = mul_int64 quota_gb (1024 * 1024 * 1024);
  storage_locked = false;
}

abbrev is_locked : Option String → Bool
is_locked none = false
is_locked (some value) = value =s= "true"

abbrev counted : Db → Stats → Stats
counted db s = record s {
  user_count = length db.users;
  project_count = length db.projects;
  bucket_count = length db.buckets;
  file_count = length db.files;
  storage_bytes = sum_where (λ (f : File). true) (λ f. f.size_bytes) db.files;
  storage_locked = is_locked db.storage_locked;
}

abbrev or_zeros : ℤ → Result Db → Stats
or_zeros quota_gb (ok db) = counted db (no_stats quota_gb)
or_zeros quota_gb (err e) = no_stats quota_gb

-- An error of the query leaves zeros.
unfoldable stats : ℤ → Action Stats
stats quota_gb = do
  answer ← attempt (query "admin.stats" (λ _ db. db))
  pure (or_zeros quota_gb answer)
