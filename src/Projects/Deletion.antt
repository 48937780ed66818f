-- ===== src/Projects/Deletion.antt =====
-- What a deletion of internal/projects/service.go takes with it, and what it leaves.
use nexium_storage_back.Shared.{
  ℕ, ◌≡◌, refl, Bool, false, not, List, [], ◌∷◌, ◌==◌, any_by, any_by-find_by, select_by,
  delete_where, any_by-delete_where, arith, Result, ok, err,
}
use nexium_storage_back.World.{Bucket, File, ApiKey, Webhook, Log, sql, Ext, World}
use nexium_storage_back.Projects.Store.{
  is_of, is_in_bucket_of, without_project, get_by_id, delete_row,
}
use nexium_storage_back.Projects.Operations.{Service, delete, delete_objects, objects_of}

delete_objects-reads :
    (ids : List ℕ) (x : Ext) (w : World)
    → ((delete_objects ids x w).0 ≡ ok tt) × ((delete_objects ids x w).1.db ≡ w.db)
unfolding delete_objects
delete_objects-reads [] x w = (refl, refl)
delete_objects-reads (id ∷ ids) x w = delete_objects-reads ids x _

objects_of-reads :
    (r : Result (List ℕ)) (x : Ext) (w : World)
    → ((objects_of r x w).0 ≡ ok tt) × ((objects_of r x w).1.db ≡ w.db)
objects_of-reads (ok ids) x w = delete_objects-reads ids x w
objects_of-reads (err e) x w = (refl, refl)

select_by-delete_where-not {ℓ} :
    {A : Type ℓ} (p : A → Bool) (xs : List A)
    → select_by (λ a. not (p a)) (delete_where p xs) ≡ select_by (λ a. not (p a)) xs
unfolding select_by delete_where
select_by-delete_where-not p [] = refl
select_by-delete_where-not p (y ∷ xs) = ground (arith, select_by-delete_where-not p xs)

module _ (s : Service) (user_id id : ℕ) (x : Ext) (w : World)
    (reads : (l : Log) → (s.list_bucket_ids id user_id x (record w { log = l })).1.db ≡ w.db) where
  delete-without_project :
      (delete s user_id id x w).0 ≡ ok tt
      → ((delete s user_id id x w).1.db ≡ without_project id user_id w.db)
  unfolding delete get_by_id delete_row
  delete-without_project h =
      let l : Log = sql "projects.GetByID" ∷ w.log in
      let answer = s.list_bucket_ids id user_id x (record w { log = l }) in
      ground (
        arith,
        reads l,
        objects_of-reads answer.0 x answer.1,
        any_by-find_by (is_of id user_id) w.db.projects,
      )

  -- A deletion that returns leaves no bucket, no file of a bucket, no API key and no hook of the
  -- project, and every other bucket and file in its place, where the listing of the buckets only
  -- reads.
  pub delete_takes_all :
      (delete s user_id id x w).0 ≡ ok tt
      → let db' = (delete s user_id id x w).1.db in
        let of_project = λ (b : Bucket). b.project_id == id in
        let in_project = λ (f : File). is_in_bucket_of id w.db.buckets f.bucket_id in
        (any_by of_project db'.buckets ≡ false)
        × (any_by in_project db'.files ≡ false)
        × (any_by (λ (k : ApiKey). k.project_id == id) db'.api_keys ≡ false)
        × (any_by (λ (h : Webhook). h.project_id == id) db'.webhooks ≡ false)
        × (select_by (λ b. not (of_project b)) db'.buckets
            ≡ select_by (λ b. not (of_project b)) w.db.buckets)
        × (select_by (λ f. not (in_project f)) db'.files
            ≡ select_by (λ f. not (in_project f)) w.db.files)
  delete_takes_all h =
      let of_project = λ (b : Bucket). b.project_id == id in
      let in_project = λ (f : File). is_in_bucket_of id w.db.buckets f.bucket_id in
      rw (delete-without_project h) (
        any_by-delete_where of_project w.db.buckets,
        any_by-delete_where in_project w.db.files,
        any_by-delete_where (λ (k : ApiKey). k.project_id == id) w.db.api_keys,
        any_by-delete_where (λ (h : Webhook). h.project_id == id) w.db.webhooks,
        select_by-delete_where-not of_project w.db.buckets,
        select_by-delete_where-not in_project w.db.files,
      )
