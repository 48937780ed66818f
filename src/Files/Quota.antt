-- ===== src/Files/Quota.antt =====
-- The storage quota of internal/files/service.go.
use nexium_storage_back.Shared.{
  ℕ, ◌+◌, ◌<◌, ◌≡◌, refl, Bool, true, false, String, some, ◌∷◌, ℤ, pos, int64_bound, add_int64,
  add_int64_exact, gtb_ℤ, Result, ok, err, Yields, Option-cases, inl, inr, arith, sum_where,
}
use nexium_storage_back.World.{File, Db, Ext, World, Action}
use nexium_storage_back.Files.Model.{FileInfo}
use nexium_storage_back.Files.Store.{bucket_owner, find_bucket, owned_by, total_bytes_by_user}
use nexium_storage_back.Files.Operations.{
  Service, check_usage, check_quota, check_file_size, put_and_store, upload, effective_quota,
  is_unlimited,
}

-- What the functions that are injected into the service promise: they only read, `check_bucket`
-- finds a bucket of the user's, and the quota is the one that the database holds.
pub record ServiceLaws (s : Service) (quota_of : Db → ℕ → ℤ) : Type 0 where
  pub check_bucket_db : (b u : ℕ) (x : Ext) (w : World) → (s.check_bucket b u x w).1.db ≡ w.db
  pub check_bucket_owner :
      (b u : ℕ) (x : Ext) (w : World)
      → Yields (λ p. p.0 ≡ true → owned_by w.db u b ≡ true) (s.check_bucket b u x w).0
  pub get_user_quota_db : (u : ℕ) (x : Ext) (w : World) → (s.get_user_quota u x w).1.db ≡ w.db
  pub get_user_quota_reads :
      (u : ℕ) (x : Ext) (w : World) → Yields (λ q. q ≡ quota_of w.db u) (s.get_user_quota u x w).0
  pub get_user_file_size_limit_db :
      (f : ℕ → Action ℕ)
      → s.get_user_file_size_limit ≡ some f
      → (u : ℕ) (x : Ext) (w : World) → (f u x w).1.db ≡ w.db
  pub is_platform_locked_db : (x : Ext) (w : World) → (s.is_platform_locked x w).1.db ≡ w.db

-- What `put_and_store` has done to the table, by how it ended.
abbrev Stored : ℕ → ℕ → Db → Result FileInfo → Db → Type 0
Stored b size db (ok i) db' =
    (db' ≡ record db { files = i.row ∷ db.files })
    × (i.row.bucket_id ≡ b)
    × (i.row.size_bytes ≡ size)
Stored b size db (err e) db' = db' ≡ db

put_and_store-Stored :
    (s : Service) (b : ℕ) (p : Bool) (name mime : String) (size : ℕ) (x : Ext) (w : World)
    → let (r, w') = put_and_store s b p name mime size x w in Stored b size w.db r w'.db
unfolding put_and_store
put_and_store-Stored s b p name mime size x w = ground arith

-- The database gained exactly the row of the file, in the bucket that was asked for, which is the
-- user's; or it is as it was.
abbrev pub StoredOwn : ℕ → ℕ → ℕ → Db → Result FileInfo → Db → Type 0
StoredOwn u b n db (ok i) db' =
    (db' ≡ record db { files = i.row ∷ db.files })
    × (i.row.bucket_id ≡ b)
    × (i.row.size_bytes ≡ n)
    × (owned_by db u b ≡ true)
StoredOwn u b n db (err _) db' = db' ≡ db

module _ (s : Service) {quota_of : Db → ℕ → ℤ} (laws : ServiceLaws s quota_of) where
  open laws use {
    check_bucket_db, check_bucket_owner, get_user_quota_db, get_user_quota_reads,
    get_user_file_size_limit_db, is_platform_locked_db,
  }

  pub check_file_size-db :
      (u size : ℕ) (x : Ext) (w : World) → (check_file_size s u size x w).1.db ≡ w.db
  unfolding check_file_size
  check_file_size-db u size x w = elim (Option-cases s.get_user_file_size_limit) [
    | inl no_limit ↦ ground arith
    | inr (f, e) ↦ ground (arith, get_user_file_size_limit_db f e u x w)
  ]

  -- The check reads only, and on success the sum of the old and the new bytes is within the quota.
  abbrev QuotaChecked : ℕ → ℕ → Db → Result (Unit {0}) → Db → Type 0
  QuotaChecked u n db (ok _) db' =
      (db' ≡ db)
      × (is_unlimited (effective_quota s (quota_of db u)) ≡ false
          → gtb_ℤ (add_int64 (total_bytes_by_user db u) n) (effective_quota s (quota_of db u))
            ≡ false)
  QuotaChecked u n db (err _) db' = db' ≡ db

  check_usage_lem :
      (q : ℤ) (u n : ℕ) (x : Ext) (w : World)
      → let (r, w') = check_usage q u n x w in
        (w'.db ≡ w.db)
        × (r ≡ ok tt
            → is_unlimited q ≡ false
            → gtb_ℤ (add_int64 (total_bytes_by_user w.db u) n) q ≡ false)
  unfolding check_usage
  check_usage_lem q u n x w = ground arith

  pub check_quota-QuotaChecked :
      (u n : ℕ) (x : Ext) (w : World)
      → let (r, w') = check_quota s u n x w in QuotaChecked u n w.db r w'.db
  unfolding check_quota
  check_quota-QuotaChecked u n x w =
      let w1 = (s.is_platform_locked x w).1 in
      let w2 = (s.get_user_quota u x w1).1 in
      let q = effective_quota s (quota_of w.db u) in
      ground (
        arith,
        is_platform_locked_db x w,
        get_user_quota_db u x w1,
        get_user_quota_reads u x w1,
        check_usage_lem q u n x w2,
      )

  -- Every upload that returns: the database gained exactly the row of the file, in the bucket that
  -- was asked for, which is the user's; the bytes fit. One that fails leaves the database alone.
  abbrev Uploaded : ℕ → ℕ → ℕ → Db → Result FileInfo → Db → Type 0
  Uploaded u b n db (ok i) db' =
      Stored b n db (ok i) db'
      × (owned_by db u b ≡ true)
      × (is_unlimited (effective_quota s (quota_of db u)) ≡ false
          → gtb_ℤ (add_int64 (total_bytes_by_user db u) n) (effective_quota s (quota_of db u))
            ≡ false)
  Uploaded u b n db (err _) db' = db' ≡ db

  upload-Uploaded :
      (u b : ℕ) (name mime : String) (size : ℕ) (x : Ext) (w : World)
      → let (r, w') = upload s u b name mime size x w in Uploaded u b size w.db r w'.db
  unfolding upload
  upload-Uploaded u b name mime size x w =
      let w1 = (check_file_size s u size x w).1 in
      let w2 = (check_quota s u size x w1).1 in
      let found = s.check_bucket b u x w2 in
      grind (
        arith,
        check_file_size-db u size x w,
        check_quota-QuotaChecked u size x w1,
        check_bucket_db b u x w2,
        check_bucket_owner b u x w2,
        λ (p : Bool). put_and_store-Stored s b p name mime size x found.1,
      )

  -- An upload that returns has added exactly the row of the file, with the bytes and in the bucket
  -- that were asked for, and the bucket is the user's; one that fails leaves the database alone,
  -- wherever it fails.
  pub upload_stores :
      (u b : ℕ) (name mime : String) (size : ℕ) (x : Ext) (w : World)
      → let (r, w') = upload s u b name mime size x w in StoredOwn u b size w.db r w'.db
  upload_stores u b name mime size x w = ground (arith, upload-Uploaded u b name mime size x w)

  pub total-cons :
      (u : ℕ) (f : File) (db : Db)
      → owned_by db u f.bucket_id ≡ true
      → total_bytes_by_user (record db { files = f ∷ db.files }) u
        ≡ f.size_bytes + total_bytes_by_user db u
  unfolding total_bytes_by_user sum_where owned_by bucket_owner find_bucket
  total-cons u f db h = rw h refl

  -- An upload that returns adds its bytes to the user's total, and the total is within the quota,
  -- if the user has one and the sum fits an int64.
  pub upload_within_quota :
      (u b : ℕ) (name mime : String) (size : ℕ) (x : Ext) (w : World) {i : FileInfo}
      → (upload s u b name mime size x w).0 ≡ ok i
      → is_unlimited (effective_quota s (quota_of w.db u)) ≡ false
      → total_bytes_by_user w.db u + size < int64_bound
      → let total = total_bytes_by_user (upload s u b name mime size x w).1.db u in
        (total ≡ total_bytes_by_user w.db u + size)
        × (gtb_ℤ (pos total) (effective_quota s (quota_of w.db u)) ≡ false)
  upload_within_quota u b name mime size x w {i = i} e limited fits = ground (
    arith,
    upload-Uploaded u b name mime size x w,
    total-cons u i.row w.db,
    add_int64_exact (total_bytes_by_user w.db u) size,
  )
