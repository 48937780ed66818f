-- ===== src/Buckets/Ownership.antt =====
-- Whose buckets the operations of internal/buckets/service.go create, change and delete.
use nexium_storage_back.Shared.{
  ℕ, ◌≡◌, Bool, true, false, ◌&&◌, String, Option, some, ◌∷◌, ◌==◌, ◌=s=◌, find_by, any_by, arith,
  ok, find_by-none, any_by-delete_where, any_by-find_by,
}
use nexium_storage_back.World.{Bucket, File, Project, Ext, World}
use nexium_storage_back.Files.{owned_by, bucket_owner, find_bucket}
use nexium_storage_back.Files.Access.{Refused}
use nexium_storage_back.Buckets.Names.{valid_bucket_name}
use nexium_storage_back.Buckets.Store.{
  is_owned, create_row, get_by_id_and_user, delete_row, exists_by_name,
}
use nexium_storage_back.Buckets.Service.{check_name, create, update, delete}

-- A bucket that is not of one of the user's projects is neither changed nor deleted: the call ends
-- in an error before anything is written and before the object store is asked.
foreign_bucket-Refused :
    (clean : String → String) (user_id id : ℕ) (name : String) (p : Option Bool) (x : Ext)
    (w : World)
    → any_by (is_owned w.db id user_id) w.db.buckets ≡ false
    → Refused "buckets.GetByIDAndUser" w (update clean user_id id name p x w)
      × Refused "buckets.GetByIDAndUser" w (delete user_id id x w)
unfolding update delete get_by_id_and_user
foreign_bucket-Refused clean u id name p x w h =
    let missing = find_by-none _ _ h in (ground (arith, missing), ground (arith, missing))

-- A bucket that is created has a valid name that no bucket of the project had; it belongs to the
-- owner of the project, whoever has created it.
pub create_gives_project_owner :
    (clean : String → String) (user_id project_id : ℕ) (name : String) (p : Option Bool) (x : Ext)
    (w : World) {b : Bucket} {project : Project}
    → (create clean user_id project_id name p x w).0 ≡ ok b
    → find_by (λ (q : Project). q.id == project_id) w.db.projects ≡ some project
    → let db' = (create clean user_id project_id name p x w).1.db in
      (db' ≡ record (w.db) { buckets = b ∷ w.db.buckets })
      × (owned_by db' project.user_id b.id ≡ true)
      × (valid_bucket_name b.name ≡ true)
      × (any_by (λ (c : Bucket). c.project_id == project_id && c.name =s= b.name) w.db.buckets
          ≡ false)
unfolding create check_name exists_by_name create_row owned_by bucket_owner find_bucket find_by
create_gives_project_owner clean u project_id name p x w h e = ground (arith, h, e)

-- After a deletion that returns, the user finds no bucket of the id, and no file of it is left in
-- the table.
delete_removes_bucket :
    (user_id id : ℕ) (x : Ext) (w : World)
    → (delete user_id id x w).0 ≡ ok tt
    → let db' = (delete user_id id x w).1.db in
      (any_by (is_owned w.db id user_id) db'.buckets ≡ false)
      × (any_by (λ (f : File). f.bucket_id == id) db'.files ≡ false)
unfolding delete get_by_id_and_user delete_row
delete_removes_bucket u id x w h = ground (
  arith,
  any_by-delete_where (is_owned w.db id u) w.db.buckets,
  any_by-delete_where (λ (f : File). f.bucket_id == id) w.db.files,
  any_by-find_by (is_owned w.db id u) w.db.buckets,
)
