-- ===== src/Files/Store.antt =====
-- internal/files/store.go: the SQL statements on the table `files`, joined with `buckets` and
-- `projects`. Identifiers are primary keys, so a join with one is a search by it.
use nexium_storage_back.Shared.{
  ℕ, Bool, false, ◌&&◌, ◌||◌, String, Option, none, some, List, ◌∷◌, ◌==◌, ◌=s=◌, ltb,
  if◌then◌else◌, find_by, select_by, update_where, delete_where, sum_where, length, take, drop, [],
}
use nexium_storage_back.World.{Project, Bucket, File, Db, Action, query, exec}
use nexium_storage_back.Files.Model.{FileInfo}

unfoldable pub find_bucket : Db → ℕ → Option Bucket
find_bucket db id = find_by (λ (b : Bucket). b.id == id) db.buckets

-- `JOIN buckets b ... JOIN projects p ...`: the user who owns the bucket.
unfoldable pub bucket_owner : Db → ℕ → Option ℕ
bucket_owner db id = elim (find_bucket db id) [
  | none ↦ none
  | some b ↦ elim (find_by (λ (p : Project). p.id == b.project_id) db.projects) [
    | none ↦ none
    | some p ↦ some p.user_id
  ]
]

-- `p.user_id = $2`
unfoldable pub owned_by : Db → ℕ → ℕ → Bool
owned_by db user_id bucket_id = elim (bucket_owner db bucket_id) [
  | none ↦ false
  | some owner ↦ owner == user_id
]

-- The columns of `f.*, b.is_public`.
unfoldable pub join_bucket : Db → File → Option FileInfo
join_bucket db f = elim (find_bucket db f.bucket_id) [
  | none ↦ none
  | some b ↦ some (record { row = f; url = ""; bucket_is_public = b.is_public })
]

unfoldable pub create : File → Action (Unit {0})
create f = exec "files.Create" (λ _ db. record db { files = f ∷ db.files })

unfoldable pub lookup_public : Db → ℕ → Option FileInfo
lookup_public db id = elim (find_by (λ (f : File). f.id == id) db.files) [
  | none ↦ none
  | some f ↦ join_bucket db f
]

unfoldable pub get_by_id_public : ℕ → Action (Option FileInfo)
get_by_id_public id = query "files.GetByIDPublic" (λ _ db. lookup_public db id)

unfoldable pub lookup_owned : Db → ℕ → ℕ → Option FileInfo
lookup_owned db id user_id =
    elim (find_by (λ (f : File). f.id == id && owned_by db user_id f.bucket_id) db.files) [
      | none ↦ none
      | some f ↦ join_bucket db f
    ]

unfoldable pub get_by_id : ℕ → ℕ → Action (Option FileInfo)
get_by_id id user_id = query "files.GetByID" (λ _ db. lookup_owned db id user_id)

-- `ORDER BY created_at DESC`
unfoldable pub insert_newest : File → List File → List File
insert_newest f [] = f ∷ []
insert_newest f (g ∷ gs) =
    if ltb f.created_at g.created_at then g ∷ insert_newest f gs else f ∷ g ∷ gs

unfoldable pub newest_first : List File → List File
unfolding insert_newest
newest_first [] = []
newest_first (f ∷ fs) = insert_newest f (newest_first fs)

-- The rows that a listing ranges over; `contains` is `ILIKE '%' || $3 || '%'`.
unfoldable pub matching : (String → String → Bool) → Db → ℕ → ℕ → String → List File
matching contains db bucket_id user_id search = newest_first (
    select_by
      (λ (f : File).
        f.bucket_id == bucket_id
        && owned_by db user_id f.bucket_id
        && (search =s= "" || contains f.filename search))
      db.files)

unfoldable infos : Db → List File → List FileInfo
infos db [] = []
infos db (f ∷ fs) = elim (join_bucket db f) [ none ↦ infos db fs | some i ↦ i ∷ infos db fs ]

unfoldable pub list_by_bucket :
    (String → String → Bool) → ℕ → ℕ → String → ℕ → ℕ → Action (List FileInfo)
unfolding infos
list_by_bucket contains bucket_id user_id search limit offset =
    query "files.ListByBucket"
      (λ _ db. infos db (take limit (drop offset (matching contains db bucket_id user_id search))))

unfoldable pub count_by_bucket : (String → String → Bool) → ℕ → ℕ → String → Action ℕ
count_by_bucket contains bucket_id user_id search =
    query "files.CountByBucket" (λ _ db. length (matching contains db bucket_id user_id search))

unfoldable pub rename_row : ℕ → ℕ → String → Action (Unit {0})
rename_row id user_id filename = exec "files.Rename" (λ _ db. record db {
  files =
      update_where (λ (f : File). f.id == id && owned_by db user_id f.bucket_id)
        (λ f. record f { filename = filename }) db.files;
})

unfoldable pub total_bytes_by_user : Db → ℕ → ℕ
total_bytes_by_user db user_id =
    sum_where (λ (f : File). owned_by db user_id f.bucket_id) (λ f. f.size_bytes) db.files

unfoldable pub total_storage_bytes_by_user : ℕ → Action ℕ
total_storage_bytes_by_user user_id =
    query "files.TotalStorageBytesByUser" (λ _ db. total_bytes_by_user db user_id)

unfoldable pub delete_row : ℕ → ℕ → Action (Unit {0})
delete_row id user_id = exec "files.Delete" (λ _ db. record db {
  files = delete_where (λ (f : File). f.id == id && owned_by db user_id f.bucket_id) db.files;
})
