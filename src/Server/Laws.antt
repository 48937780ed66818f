-- ===== src/Server/Laws.antt =====
-- The laws of the functions that cmd/server/main.go injects into the services.
use nexium_storage_back.Shared.{
  ℕ, ◌+◌, ◌<◌, ◌≡◌, inl, inr, Bool, true, false, String, none, some, find_by, find_by_sound, ℤ, pos,
  negsuc, gtb_ℤ, int64_bound, ok, Yields, arith, Option-cases, ap, subst,
}
use nexium_storage_back.World.{Db, Ext, World, Action}
use nexium_storage_back.Buckets.{get_by_id_and_user, is_owned}
use nexium_storage_back.Billing.{get_user_file_size_limit, get_subscription_row, get_plan_by_slug}
use nexium_storage_back.Billing.Laws.{with_quota, ServiceLaws as BillingLaws}
use nexium_storage_back.Files.{
  owned_by, FileInfo, upload, total_bytes_by_user, effective_quota, is_unlimited,
}
use nexium_storage_back.Files.Quota.{ServiceLaws as FileLaws, upload_within_quota}
use nexium_storage_back.Server.Wiring.{
  stored_quota, get_storage_quota, set_storage_quota, get_user_by_id, user_info, is_platform_locked,
  check_bucket, billing_service, file_service,
}

pub billing_service-ServiceLaws :
    (sends_mail : Bool) (to_upper : String → String)
    → BillingLaws (billing_service sends_mail to_upper)
unfolding billing_service set_storage_quota user_info get_user_by_id with_quota
billing_service-ServiceLaws sends_mail to_upper = record {
  set_quota_writes = λ u q x w. ground arith;
  get_user_info_reads = λ u x w. ground arith;
}

-- The quota that the files module reads: the user's column, -1 for a `NULL` and for no user.
unfoldable pub quota_of : Db → ℕ → ℤ
quota_of db u = elim (stored_quota db u) [ none ↦ negsuc 0 | some q ↦ q ]

check_bucket_owner :
    (b u : ℕ) (x : Ext) (w : World)
    → Yields (λ p. p.0 ≡ true → owned_by w.db u b ≡ true) (check_bucket b u x w).0
unfolding check_bucket get_by_id_and_user
check_bucket_owner b u x w = elim (Option-cases (find_by (is_owned w.db b u) w.db.buckets)) [
  | inl missing ↦ ground (arith, missing)
  | inr (c, e) ↦ ground (arith, e, find_by_sound (is_owned w.db b u) w.db.buckets {x = c} e)
]

file_size_limit_reads : (u : ℕ) (x : Ext) (w : World) → (get_user_file_size_limit u x w).1.db ≡ w.db
unfolding get_user_file_size_limit get_subscription_row get_plan_by_slug
file_size_limit_reads u x w = ground arith

pub file_service-ServiceLaws :
    (gb : ℤ) (app_url cdn_url : String) (trim_space : String → String)
    (contains : String → String → Bool)
    → FileLaws (file_service gb app_url cdn_url trim_space contains) quota_of
unfolding file_service quota_of check_bucket get_by_id_and_user get_storage_quota is_platform_locked
file_service-ServiceLaws gb app_url cdn_url trim_space contains = record {
  check_bucket_db = λ b u x w. ground arith;
  check_bucket_owner = λ b u x w. check_bucket_owner b u x w;
  get_user_quota_db = λ u x w. ground arith;
  get_user_quota_reads = λ u x w. ground arith;
  get_user_file_size_limit_db = λ f e u x w.
      subst (λ g. (g u x w).1.db ≡ w.db)
        (ap (λ o. elim o as (λ _. ℕ → Action ℕ) [ none ↦ get_user_file_size_limit | some g ↦ g ]) e)
        (file_size_limit_reads u x w);
  is_platform_locked_db = λ x w. ground arith;
}

-- On the server as it is put together, an upload that returns adds its size to the bytes of the user, and
-- leaves the user within the quota: the one of the user's row, or the one of the configuration where
-- that is below 0. The quota is not 0, which is no quota, and the bytes with the upload fit an int64.
pub server_upload_within_quota :
    (gb : ℤ) (app_url cdn_url : String) (trim_space : String → String)
    (contains : String → String → Bool) (u b : ℕ) (name mime : String) (size : ℕ) (x : Ext)
    (w : World) {i : FileInfo}
    → (upload (file_service gb app_url cdn_url trim_space contains) u b name mime size x w).0 ≡ ok i
    → is_unlimited
        (effective_quota (file_service gb app_url cdn_url trim_space contains) (quota_of w.db u))
      ≡ false
    → total_bytes_by_user w.db u + size < int64_bound
    → let s = file_service gb app_url cdn_url trim_space contains in
      let db' = (upload s u b name mime size x w).1.db in
      (total_bytes_by_user db' u ≡ total_bytes_by_user w.db u + size)
      × (gtb_ℤ (pos (total_bytes_by_user db' u)) (effective_quota s (quota_of w.db u)) ≡ false)
server_upload_within_quota gb app_url cdn_url trim_space contains u b name mime size x w {i = i} e
      limited fits =
    upload_within_quota (file_service gb app_url cdn_url trim_space contains)
      (file_service-ServiceLaws gb app_url cdn_url trim_space contains) u b name mime size x w
      {i = i} e limited fits
