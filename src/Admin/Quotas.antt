-- ===== src/Admin/Quotas.antt =====
-- The quota and the lock that internal/admin/handler.go sets, as the other services read them.
use nexium_storage_back.Shared.{
  ℕ, ◌+◌, ◌%◌, ◌*◌, ◌<◌, ◌^◌, ◌≡◌, refl, Bool, true, false, String, [], Result, ℤ, if◌then◌else◌,
  some, ◌∷◌, find_by, find_by-update_where, arith, pos, mul_int64, mul_int64_exact, ok, err,
}
use nexium_storage_back.World.{User, Event, Log, sql, r2_put, r2_head, Ext, World}
use nexium_storage_back.Billing.{get_user_file_size_limit, get_subscription_row, get_plan_by_slug}
use nexium_storage_back.Files.{
  Service, check_quota, upload, confirm_upload, presign_upload, check_file_size,
}
use nexium_storage_back.Server.{file_service, is_platform_locked, get_storage_quota, stored_quota}
use nexium_storage_back.Auth.{has_id}
use nexium_storage_back.Admin.Accounts.{log_async}
use nexium_storage_back.Admin.Platform.{set_user_quota, lock_platform, with_quota, gigabytes}

-- The quota that a super administrator sets for a user is the one that uploads are checked against,
-- to the byte, as long as it is below 2^33 gigabytes.
set_user_quota_read_back :
    (actor_id target_id gb : ℕ) (x x' : Ext) (w : World) (l : Log) {u : User}
    → find_by (has_id target_id) w.db.users ≡ some u
    → gb < 8589934592
    → (set_user_quota actor_id target_id (some (pos gb)) x w).0 ≡ ok tt
    → x'.fails (sql "auth.GetStorageQuota" ∷ l) ≡ false
    → let w' = (set_user_quota actor_id target_id (some (pos gb)) x w).1 in
      (get_storage_quota target_id x' (record w' { log = l })).0 ≡ ok (pos (gb * 1073741824))
unfolding set_user_quota log_async get_storage_quota stored_quota
set_user_quota_read_back actor target gb x x' w l {u = u} e small h up = ground (
  arith,
  find_by-update_where (has_id target) (with_quota (gigabytes (some (pos gb)))) w.db.users
      (λ y. refl),
  mul_int64_exact gb 1073741824 (omega (arith, small)),
)

gigabytes_period : (n : ℕ) → gigabytes (some (pos (n + 17179869184))) ≡ gigabytes (some (pos n))
unfolding mul_int64
gigabytes_period n =
    let same : (n + 17179869184) * 1073741824 % 2 ^ 64 ≡ n * 1073741824 % 2 ^ 64 = omega arith in
    rw same refl

-- Past that the number of bytes wraps around: to set 2^34 gigabytes more does the same, so that
-- 2^34 gigabytes are 0, which is no limit.
set_user_quota_wraps :
    (actor_id target_id gb : ℕ) (x : Ext) (w : World)
    → set_user_quota actor_id target_id (some (pos (gb + 17179869184))) x w
      ≡ set_user_quota actor_id target_id (some (pos gb)) x w
unfolding set_user_quota
set_user_quota_wraps actor target gb x w = rw (gigabytes_period gb) refl

abbrev is_put : Event → Bool
is_put (r2_put key size) = true
is_put e = false

-- The objects that were written.
abbrev pub puts : Log → ℕ
puts [] = 0
puts (e ∷ l) = (if is_put e then 1 else 0) + puts l

-- The call was refused, changed no table, and wrote no object.
abbrev pub Stopped {ℓ} : {A : Type ℓ} → World → Result A × World → Type 0
Stopped w (ok a, w') = ⊥
Stopped w (err e, w') = (w'.db ≡ w.db) × (puts w'.log ≡ puts w.log)

module _ (gb : ℤ) (app_url cdn_url : String) (trim : String → String)
    (contains : String → String → Bool) where
  abbrev service : Service
  service = file_service gb app_url cdn_url trim contains

  locked_check :
      (u n : ℕ) (x : Ext) (w : World)
      → w.db.storage_locked ≡ some "true"
      → x.fails (sql "IsPlatformLocked" ∷ w.log) ≡ false
      → Stopped w (check_quota service u n x w)
  unfolding check_quota file_service is_platform_locked
  locked_check u n x w locked up = ground arith

  size_check :
      (u n : ℕ) (x : Ext) (w : World)
      → let w' = (check_file_size service u n x w).1 in (w'.db ≡ w.db) × (puts w'.log ≡ puts w.log)
  unfolding check_file_size file_service get_user_file_size_limit get_subscription_row
      get_plan_by_slug
  size_check u n x w = ground arith

  locked_upload :
      (u b : ℕ) (name mime : String) (size : ℕ) (x : Ext) (w : World)
      → w.db.storage_locked ≡ some "true"
      → ((l : Log) → x.fails (sql "IsPlatformLocked" ∷ l) ≡ false)
      → Stopped w (upload service u b name mime size x w)
  unfolding upload
  locked_upload u b name mime size x w locked up =
      let w1 = (check_file_size service u size x w).1 in
      ground (arith, size_check u size x w, locked_check u size x w1, up w1.log)

  locked_presign :
      (u b : ℕ) (name mime : String) (x : Ext) (w : World)
      → w.db.storage_locked ≡ some "true"
      → ((l : Log) → x.fails (sql "IsPlatformLocked" ∷ l) ≡ false)
      → Stopped w (presign_upload service u b name mime x w)
  unfolding presign_upload
  locked_presign u b name mime x w locked up = ground (arith, locked_check u 0 x w, up w.log)

  locked_confirm :
      (u b f : ℕ) (key name mime : String) (declared : ℕ) (x : Ext) (w : World)
      → w.db.storage_locked ≡ some "true"
      → ((l : Log) → x.fails (sql "IsPlatformLocked" ∷ l) ≡ false)
      → Stopped w (confirm_upload service u b f key name mime declared x w)
  unfolding confirm_upload
  locked_confirm u b f key name mime declared x w locked up =
      let w0 : World = record { db = w.db; log = r2_head key ∷ w.log } in
      let size = x.object_size (r2_head key ∷ w.log) in
      let w1 = (check_file_size service u size x w0).1 in
      ground (arith, size_check u size x w0, locked_check u size x w1, up w1.log)

-- After a lock that returns, the server refuses every upload, every URL to upload to, and every
-- registration of an object that was uploaded, changes no table and writes no object, as long as the
-- setting can be read.
pub lock_refuses_uploads :
    (gb : ℤ) (app_url cdn_url : String) (trim : String → String) (contains : String → String → Bool)
    (actor_id u b f : ℕ) (name mime key : String) (size : ℕ) (x x' : Ext) (w : World) (l : Log)
    → (lock_platform actor_id x w).0 ≡ ok tt
    → ((l' : Log) → x'.fails (sql "IsPlatformLocked" ∷ l') ≡ false)
    → let s = file_service gb app_url cdn_url trim contains in
      let w' : World = record (lock_platform actor_id x w).1 { log = l } in
      Stopped w' (upload s u b name mime size x' w')
      × Stopped w' (presign_upload s u b name mime x' w')
      × Stopped w' (confirm_upload s u b f key name mime size x' w')
unfolding lock_platform log_async
lock_refuses_uploads gb app_url cdn_url trim contains actor u b f name mime key size x x' w l h up =
    let w' : World = record (lock_platform actor x w).1 { log = l } in
    let locked : w'.db.storage_locked ≡ some "true" = ground arith in
    (
      locked_upload gb app_url cdn_url trim contains u b name mime size x' w' locked up,
      locked_presign gb app_url cdn_url trim contains u b name mime x' w' locked up,
      locked_confirm gb app_url cdn_url trim contains u b f key name mime size x' w' locked up,
    )
