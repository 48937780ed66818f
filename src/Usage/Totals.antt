-- ===== src/Usage/Totals.antt =====
-- The summary of internal/usage/store.go against the files of the project.
use nexium_storage_back.Shared.{
  ℕ, ◌+◌, ◌≡◌, refl, Bool, true, false, some, List, [], ◌∷◌, ◌++◌, ◌==◌, any_by, select_by,
  if◌then◌else◌, sum_where, find_by, map, IsKeyed, arith, ok, ◌∙◌,
}
use nexium_storage_back.World.{Project, Bucket, File, Db, Ext, World}
use nexium_storage_back.Projects.{is_of, is_in_bucket_of}
use nexium_storage_back.Usage.Joins.{
  Summary, Row, with_files, rows_of_buckets, or_null, buckets_of, joined_rows, sum_sizes,
  get_summary,
}

abbrev pub bytes : File → ℕ
bytes f = f.size_bytes

pub sum_sizes-append : (r s : List Row) → sum_sizes (r ++ s) ≡ sum_sizes r + sum_sizes s
unfolding sum_sizes
sum_sizes-append [] s = omega arith
sum_sizes-append (x ∷ r) s = ground (arith, sum_sizes-append r s)

sum_sizes-map :
    (b : Bucket) (q : File → Bool) (fs : List File)
    → sum_sizes (map (λ (g : File). (some b, some g)) (select_by q fs)) ≡ sum_where q bytes fs
unfolding sum_sizes select_by sum_where
sum_sizes-map b q [] = refl
sum_sizes-map b q (f ∷ fs) = ground (arith, sum_sizes-map b q fs)

sum_sizes-with_files :
    (b : Bucket) (fs : List File)
    → sum_sizes (with_files b fs) ≡ sum_sizes (map (λ (g : File). (some b, some g)) fs)
unfolding sum_sizes
sum_sizes-with_files b [] = refl
sum_sizes-with_files b (f ∷ fs) = refl

-- The sizes under two conditions that exclude each other.
pub sum_where-split :
    (p q r : File → Bool) (fs : List File)
    → ((f : File) → p f ≡ true → q f ≡ false)
    → ((f : File) → r f ≡ (if p f then true else q f))
    → sum_where p bytes fs + sum_where q bytes fs ≡ sum_where r bytes fs
unfolding sum_where
sum_where-split p q r [] apart union = refl
sum_where-split p q r (f ∷ fs) apart union =
    ground (arith, apart f, union f, sum_where-split p q r fs apart union)

pub sum_where-none : (fs : List File) → 0 ≡ sum_where (λ f. false) bytes fs
unfolding sum_where
sum_where-none [] = refl
sum_where-none (f ∷ fs) = ground (arith, sum_where-none fs)

abbrev is_file_in : List Bucket → File → Bool
is_file_in bs f = any_by (λ (b : Bucket). b.id == f.bucket_id) bs

sum_sizes-rows_of_buckets :
    (fs : List File) (bs : List Bucket)
    → IsKeyed (λ (b : Bucket). b.id) bs
    → sum_sizes (rows_of_buckets fs bs) ≡ sum_where (is_file_in bs) bytes fs
unfolding rows_of_buckets sum_sizes any_by
sum_sizes-rows_of_buckets fs [] keyed = sum_where-none fs
sum_sizes-rows_of_buckets fs (b ∷ bs) keyed =
    let of_b = λ (f : File). f.bucket_id == b.id in
    ground (
      arith,
      sum_sizes-append (with_files b (select_by of_b fs)) (rows_of_buckets fs bs),
      sum_sizes-with_files b (select_by of_b fs),
      sum_sizes-map b of_b fs,
      sum_sizes-rows_of_buckets fs bs keyed.1,
      sum_where-split of_b (is_file_in bs) (is_file_in (b ∷ bs)) fs (λ f e. ground arith)
          (λ f. ground arith),
    )

any_by-select_by :
    (project_id k : ℕ) (bs : List Bucket)
    → any_by (λ (b : Bucket). b.id == k) (select_by (λ (b : Bucket). b.project_id == project_id) bs)
      ≡ is_in_bucket_of project_id bs k
unfolding any_by select_by
any_by-select_by project_id k [] = refl
any_by-select_by project_id k (b ∷ bs) = ground (arith, any_by-select_by project_id k bs)

any_by-and :
    (project_id k : ℕ) (bs : List Bucket)
    → any_by (λ (b : Bucket). b.id == k) bs ≡ false
    → is_in_bucket_of project_id bs k ≡ false
unfolding any_by
any_by-and project_id k [] h = refl
any_by-and project_id k (b ∷ bs) h = ground (arith, any_by-and project_id k bs)

select_by-IsKeyed :
    (project_id : ℕ) (bs : List Bucket)
    → IsKeyed (λ (b : Bucket). b.id) bs
    → IsKeyed (λ (b : Bucket). b.id) (select_by (λ (b : Bucket). b.project_id == project_id) bs)
unfolding select_by
select_by-IsKeyed project_id [] h = tt
select_by-IsKeyed project_id (b ∷ bs) h = ground (
  arith,
  select_by-IsKeyed project_id bs h.1,
  any_by-select_by project_id b.id bs,
  any_by-and project_id b.id bs h.0,
)

no_project :
    (id user_id : ℕ) (ps : List Project)
    → any_by (λ (p : Project). p.id == id) ps ≡ false
    → select_by (is_of id user_id) ps ≡ []
unfolding any_by select_by
no_project id user_id [] h = refl
no_project id user_id (p ∷ ps) h = ground (arith, no_project id user_id ps)

one_project :
    (id user_id : ℕ) (ps : List Project) {p : Project}
    → IsKeyed (λ (q : Project). q.id) ps
    → find_by (is_of id user_id) ps ≡ some p
    → select_by (is_of id user_id) ps ≡ p ∷ []
unfolding find_by select_by
one_project id user_id [] keyed e = cc
one_project id user_id (q ∷ ps) {p = p} keyed e =
    ground (arith, one_project id user_id ps {p = p} keyed.1, no_project q.id user_id ps keyed.0)

sum_sizes-or_null : (rs : List Row) → sum_sizes (or_null rs) ≡ sum_sizes rs
unfolding sum_sizes
sum_sizes-or_null [] = refl
sum_sizes-or_null (r ∷ rs) = refl

pub sum_where-same :
    (p q : File → Bool) (fs : List File)
    → ((f : File) → p f ≡ q f)
    → sum_where p bytes fs ≡ sum_where q bytes fs
unfolding sum_where
sum_where-same p q [] h = refl
sum_where-same p q (f ∷ fs) h = ground (arith, h f, sum_where-same p q fs h)

-- The rows of one project.
pub sum_sizes-project :
    (db : Db) (p : Project)
    → IsKeyed (λ (b : Bucket). b.id) db.buckets
    → sum_sizes (or_null (rows_of_buckets db.files (buckets_of db p)))
      ≡ sum_where (λ f. is_in_bucket_of p.id db.buckets f.bucket_id) bytes db.files
sum_sizes-project db p keyed =
    let bs = buckets_of db p in
    sum_sizes-or_null (rows_of_buckets db.files bs)
    ∙ sum_sizes-rows_of_buckets db.files bs (select_by-IsKeyed p.id db.buckets keyed)
    ∙ sum_where-same (is_file_in bs) (λ f. is_in_bucket_of p.id db.buckets f.bucket_id) db.files
        (λ f. any_by-select_by p.id f.bucket_id db.buckets)

-- The joins count no file twice: the bytes of the summary of a user's project are the sum of the
-- sizes of the files that are in its buckets, where identifiers are distinct.
pub get_summary-sums :
    (project_id user_id : ℕ) (x : Ext) (w : World) {p : Project} {sum : Summary}
    → IsKeyed (λ (q : Project). q.id) w.db.projects
    → IsKeyed (λ (b : Bucket). b.id) w.db.buckets
    → find_by (is_of project_id user_id) w.db.projects ≡ some p
    → (get_summary project_id user_id x w).0 ≡ ok sum
    → sum.storage_bytes
      ≡ sum_where
          (λ f. is_in_bucket_of p.id w.db.buckets f.bucket_id)
          (λ f. f.size_bytes)
          w.db.files
unfolding get_summary joined_rows sum_sizes
get_summary-sums project_id user_id x w {p = p} keyed_p keyed_b e h =
    let rows = or_null (rows_of_buckets w.db.files (buckets_of w.db p)) in
    ground (
      arith,
      one_project project_id user_id w.db.projects {p = p} keyed_p e,
      sum_sizes-append rows [],
      sum_sizes-project w.db p keyed_b,
    )
