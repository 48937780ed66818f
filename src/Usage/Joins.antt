-- ===== src/Usage/Joins.antt =====
-- internal/usage/store.go: `GetSummary`, a sum and two counts over the outer joins of the project, its
-- buckets and their files.
use nexium_storage_back.Shared.{
  ℕ, suc, ◌+◌, Bool, false, Option, none, some, List, [], ◌∷◌, ◌++◌, ◌==◌, any_by, select_by, map,
  if◌then◌else◌,
}
use nexium_storage_back.World.{Project, Bucket, File, Db, Action, query}
use nexium_storage_back.Projects.{is_of}

pub record Summary : Type 0 where
  pub project_id : ℕ
  pub storage_bytes : ℕ
  pub file_count : ℕ
  pub bucket_count : ℕ

-- A row of the joins: the columns of a missing bucket or file are `NULL`.
abbrev pub Row : Type 0
Row = Option Bucket × Option File

-- `LEFT JOIN files f ON f.bucket_id = b.id`
abbrev pub with_files : Bucket → List File → List Row
with_files b [] = (some b, none) ∷ []
with_files b (f ∷ fs) = map (λ (g : File). (some b, some g)) (f ∷ fs)

unfoldable pub rows_of_buckets : List File → List Bucket → List Row
rows_of_buckets files [] = []
rows_of_buckets files (b ∷ bs) =
    with_files b (select_by (λ (f : File). f.bucket_id == b.id) files) ++ rows_of_buckets files bs

-- `LEFT JOIN buckets b ON b.project_id = p.id`
abbrev pub or_null : List Row → List Row
or_null [] = (none, none) ∷ []
or_null (r ∷ rs) = r ∷ rs

abbrev pub buckets_of : Db → Project → List Bucket
buckets_of db p = select_by (λ (b : Bucket). b.project_id == p.id) db.buckets

unfoldable pub joined_rows : Db → List Project → List Row
joined_rows db [] = []
joined_rows db (p ∷ ps) = or_null (rows_of_buckets db.files (buckets_of db p)) ++ joined_rows db ps

abbrev size_of : Option File → ℕ
size_of none = 0
size_of (some f) = f.size_bytes

-- `COALESCE(SUM(f.size_bytes), 0)`
unfoldable pub sum_sizes : List Row → ℕ
sum_sizes [] = 0
sum_sizes (r ∷ rs) = size_of r.1 + sum_sizes rs

abbrev is_id : ℕ → Option ℕ → Bool
is_id id none = false
is_id id (some other) = other == id

-- `COUNT(DISTINCT id)`, where `NULL` does not count.
unfoldable pub count_distinct : List (Option ℕ) → ℕ
count_distinct [] = 0
count_distinct (none ∷ ids) = count_distinct ids
count_distinct (some id ∷ ids) =
    let rest = count_distinct ids in if any_by (is_id id) ids then rest else suc rest

abbrev pub file_id : Row → Option ℕ
file_id r = elim r.1 as (λ _. Option ℕ) [ none ↦ none | some f ↦ some f.id ]

abbrev pub bucket_id : Row → Option ℕ
bucket_id r = elim r.0 as (λ _. Option ℕ) [ none ↦ none | some b ↦ some b.id ]

-- The service hands the answer of the store on.
unfoldable pub get_summary : ℕ → ℕ → Action Summary
get_summary project_id user_id = query "usage.GetSummary" (λ _ db.
    let rows = joined_rows db (select_by (is_of project_id user_id) db.projects) in
    record {
      project_id = project_id;
      storage_bytes = sum_sizes rows;
      file_count = count_distinct (map file_id rows);
      bucket_count = count_distinct (map bucket_id rows);
    })
