-- ===== src/Buckets/Store.antt =====
-- internal/buckets/store.go: the SQL statements on the table `buckets`, joined with `projects`.
use nexium_storage_back.Shared.{
  ℕ, Bool, ◌&&◌, String, Option, List, [], ◌∷◌, ◌==◌, ◌=s=◌, ltb, if◌then◌else◌, find_by, any_by,
  select_by, update_where, delete_where, map,
}
use nexium_storage_back.World.{Bucket, File, Db, Action, query, exec}
use nexium_storage_back.Files.{owned_by}

unfoldable pub create_row : Bucket → Action (Unit {0})
create_row b = exec "buckets.Create" (λ _ db. record db { buckets = b ∷ db.buckets })

-- `b.id = $1 AND p.user_id = $2`. The identifier is the primary key, so the row joined with its
-- project is the one that `owned_by` finds by it.
abbrev pub is_owned : Db → ℕ → ℕ → Bucket → Bool
is_owned db id user_id b = b.id == id && owned_by db user_id b.id

unfoldable pub get_by_id_and_user : ℕ → ℕ → Action (Option Bucket)
get_by_id_and_user id user_id =
    query "buckets.GetByIDAndUser" (λ _ db. find_by (is_owned db id user_id) db.buckets)

unfoldable pub insert_newest : Bucket → List Bucket → List Bucket
insert_newest b [] = b ∷ []
insert_newest b (c ∷ cs) =
    if ltb b.created_at c.created_at then c ∷ insert_newest b cs else b ∷ c ∷ cs

unfoldable pub newest_first : List Bucket → List Bucket
unfolding insert_newest
newest_first [] = []
newest_first (b ∷ bs) = insert_newest b (newest_first bs)

abbrev is_of_project : Db → ℕ → ℕ → Bucket → Bool
is_of_project db project_id user_id b = b.project_id == project_id && owned_by db user_id b.id

unfoldable pub list_by_project : ℕ → ℕ → Action (List Bucket)
list_by_project project_id user_id =
    query "buckets.ListByProject"
      (λ _ db. newest_first (select_by (is_of_project db project_id user_id) db.buckets))

unfoldable list_ids_by_project : ℕ → ℕ → Action (List ℕ)
list_ids_by_project project_id user_id = query "buckets.ListIDsByProject" (λ _ db.
    map (λ (b : Bucket). b.id) (select_by (is_of_project db project_id user_id) db.buckets))

unfoldable pub rename_row : ℕ → ℕ → String → Action (Unit {0})
rename_row id user_id name = exec "buckets.Rename" (λ _ db. record db {
  buckets = update_where (is_owned db id user_id) (λ b. record b { name = name }) db.buckets;
})

unfoldable pub set_public : ℕ → ℕ → Bool → Action (Unit {0})
set_public id user_id is_public = exec "buckets.SetPublic" (λ _ db. record db {
  buckets =
      update_where (is_owned db id user_id) (λ b. record b { is_public = is_public }) db.buckets;
})

-- The files of the bucket go with it: `ON DELETE CASCADE` (migrations/001_initial.sql).
unfoldable pub delete_row : ℕ → ℕ → Action (Unit {0})
delete_row id user_id = exec "buckets.Delete" (λ _ db. record db {
  buckets = delete_where (is_owned db id user_id) db.buckets;
  files =
      delete_where (λ (f : File). f.bucket_id == id && any_by (is_owned db id user_id) db.buckets)
        db.files;
})

unfoldable pub exists_by_name : ℕ → String → Action Bool
exists_by_name project_id name =
    query "buckets.ExistsByName"
      (λ _ db. any_by (λ (b : Bucket). b.project_id == project_id && b.name =s= name) db.buckets)
