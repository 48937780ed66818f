-- ===== src/Files/Confirm.antt =====
-- The second way into a bucket: a client writes the object itself, by a signed URL, and then asks
-- internal/files/service.go to register it (`ConfirmUpload`).
use nexium_storage_back.Shared.{
  ℕ, ◌+◌, ◌≡◌, Bool, true, not, ◌||◌, leb, String, ◌∷◌, ℤ, pos, int64_bound, add_int64_exact, gtb_ℤ,
  ok, arith,
}
use nexium_storage_back.World.{Db, Ext, World, r2_head}
use nexium_storage_back.Files.Model.{FileInfo}
use nexium_storage_back.Files.Store.{create, owned_by, total_bytes_by_user}
use nexium_storage_back.Files.Operations.{
  Service, check_quota, check_file_size, store_confirmed, confirm_upload, effective_quota,
  is_unlimited,
}
use nexium_storage_back.Files.Quota.{
  ServiceLaws, check_file_size-db, check_quota-QuotaChecked, total-cons,
}

store_confirmed_lem :
    (s : Service) (b f : ℕ) (p : Bool) (key name mime : String) (size : ℕ) (x : Ext) (w : World)
    {i : FileInfo}
    → (store_confirmed s b f p key name mime size x w).0 ≡ ok i
    → ((store_confirmed s b f p key name mime size x w).1.db
        ≡ record (w.db) { files = i.row ∷ w.db.files })
      × (i.row.bucket_id ≡ b)
      × (i.row.size_bytes ≡ size)
      × (i.row.object_key ≡ key)
unfolding store_confirmed create
store_confirmed_lem s b f p key name mime size x w h = ground arith

-- There is no quota, or the total is past the numbers of an int64, or it is within the quota.
abbrev pub IsWithin : ℕ → ℤ → Type 0
IsWithin total quota =
    (is_unlimited quota || (leb int64_bound total || not (gtb_ℤ (pos total) quota))) ≡ true

module _ (s : Service) {quota_of : Db → ℕ → ℤ} (laws : ServiceLaws s quota_of) where
  open laws use {check_bucket_db, check_bucket_owner}

  -- An object that is registered is counted with the size that the object store reports, whatever
  -- the client declares, and its bucket is the user's; the user stays within the quota, where there
  -- is one and the sum fits an int64. So it is for every service whose functions keep their laws.
  pub confirm_registers_real_size :
      (u b f : ℕ) (key name mime : String) (declared : ℕ) (x : Ext) (w : World) {i : FileInfo}
      → (confirm_upload s u b f key name mime declared x w).0 ≡ ok i
      → let db' = (confirm_upload s u b f key name mime declared x w).1.db in
        (db' ≡ record (w.db) { files = i.row ∷ w.db.files })
        × (i.row.object_key ≡ key)
        × (owned_by w.db u b ≡ true)
        × (total_bytes_by_user db' u
            ≡ total_bytes_by_user w.db u + x.object_size (r2_head key ∷ w.log))
        × IsWithin (total_bytes_by_user db' u) (effective_quota s (quota_of w.db u))
  unfolding confirm_upload
  confirm_registers_real_size u b f key name mime declared x w {i = i} e =
      let size = x.object_size (r2_head key ∷ w.log) in
      let w0 : World = record { db = w.db; log = r2_head key ∷ w.log } in
      let w1 = (check_file_size s u size x w0).1 in
      let w2 = (check_quota s u size x w1).1 in
      let found = s.check_bucket b u x w2 in
      grind (
        arith,
        check_file_size-db s laws u size x w0,
        check_quota-QuotaChecked s laws u size x w1,
        check_bucket_db b u x w2,
        check_bucket_owner b u x w2,
        λ (p : Bool). store_confirmed_lem s b f p key name mime size x found.1 {i = i},
        total-cons s laws u i.row w.db,
        add_int64_exact (total_bytes_by_user w.db u) size,
      )
