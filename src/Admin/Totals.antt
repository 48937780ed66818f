-- ===== src/Admin/Totals.antt =====
-- internal/admin/handler.go: the bytes in the list of the users, and those of the quotas.
use nexium_storage_back.Shared.{
  ℕ, zero, suc, ◌+◌, ◌≡◌, refl, sym, Bool, true, false, Option, none, some, List, [], ◌∷◌, ◌++◌,
  ◌==◌, any_by, select_by, sort_by, ap, select_by-IsKeyed, find_by, map, IsKeyed, sum_where, arith,
  ok, ◌∙◌, inl, inr, Option-cases,
}
use nexium_storage_back.World.{User, Project, Bucket, File, Db, Ext, World, sql, rows_before}
use nexium_storage_back.Files.{owned_by, total_bytes_by_user, find_bucket, bucket_owner}
use nexium_storage_back.Projects.{is_in_bucket_of}
use nexium_storage_back.Usage.{Row, rows_of_buckets, or_null, buckets_of, sum_sizes}
use nexium_storage_back.Usage.Totals.{
  bytes, sum_sizes-project, sum_where-split, sum_where-same, sum_where-none,
}
use nexium_storage_back.Admin.Listings.{
  UserRow, project_rows, or_no_project, projects_of, AdminUser, admin_user, users,
}

-- The bucket is in one of the projects.
in_any : Db → List Project → ℕ → Bool
in_any db ps bucket_id = any_by (λ (p : Project). is_in_bucket_of p.id db.buckets bucket_id) ps

sum_sizes-tagged :
    (id : Option ℕ) (rs : List Row) (us : List UserRow)
    → sum_sizes (map (λ (r : UserRow). r.1) (map (λ (r : Row). (id, r)) rs ++ us))
      ≡ sum_sizes rs + sum_sizes (map (λ (r : UserRow). r.1) us)
unfolding sum_sizes
sum_sizes-tagged id [] us = omega arith
sum_sizes-tagged id (r ∷ rs) us = ground (arith, sum_sizes-tagged id rs us)

sum_sizes-or_no_project :
    (us : List UserRow)
    → sum_sizes (map (λ (r : UserRow). r.1) (or_no_project us))
      ≡ sum_sizes (map (λ (r : UserRow). r.1) us)
unfolding sum_sizes
sum_sizes-or_no_project [] = refl
sum_sizes-or_no_project (r ∷ us) = refl

abbrev is_in : ℕ → Option Bucket → Bool
is_in project_id none = false
is_in project_id (some b) = b.project_id == project_id

no_bucket :
    (a k : ℕ) (bs : List Bucket)
    → any_by (λ (b : Bucket). b.id == k) bs ≡ false
    → is_in_bucket_of a bs k ≡ false
unfolding any_by
no_bucket a k [] h = refl
no_bucket a k (b ∷ bs) h = ground (arith, no_bucket a k bs)

-- The bucket of an id is the only one.
in_bucket-find_by :
    (a k : ℕ) (bs : List Bucket)
    → IsKeyed (λ (b : Bucket). b.id) bs
    → is_in_bucket_of a bs k ≡ is_in a (find_by (λ (b : Bucket). b.id == k) bs)
unfolding any_by find_by
in_bucket-find_by a k [] keyed = refl
in_bucket-find_by a k (b ∷ bs) keyed =
    ground (arith, in_bucket-find_by a k bs keyed.1, no_bucket a b.id bs)

has_project : ℕ → List Project → Bool
has_project k ps = any_by (λ (p : Project). k == p.id) ps

is_owner : ℕ → Option Project → Bool
is_owner u none = false
is_owner u (some p) = p.user_id == u

no_project :
    (u k : ℕ) (ps : List Project)
    → any_by (λ (p : Project). p.id == k) ps ≡ false
    → has_project k (select_by (λ (p : Project). p.user_id == u) ps) ≡ false
unfolding any_by select_by has_project
no_project u k [] h = refl
no_project u k (p ∷ ps) h = ground (arith, no_project u k ps)

has_project-select_by :
    (u k : ℕ) (ps : List Project)
    → IsKeyed (λ (p : Project). p.id) ps
    → has_project k (select_by (λ (p : Project). p.user_id == u) ps)
      ≡ is_owner u (find_by (λ (p : Project). p.id == k) ps)
unfolding any_by select_by find_by has_project is_owner
has_project-select_by u k [] keyed = refl
has_project-select_by u k (p ∷ ps) keyed =
    ground (arith, has_project-select_by u k ps keyed.1, no_project u p.id ps)

module _ (db : Db) (keyed_b : IsKeyed (λ (b : Bucket). b.id) db.buckets) where
  in_any_find :
      (ps : List Project) (k : ℕ)
      → in_any db ps k ≡ (elim (find_by (λ (b : Bucket). b.id == k) db.buckets) as (λ _. Bool) [
        | none ↦ false
        | some b ↦ has_project b.project_id ps
      ])
  unfolding in_any any_by has_project
  in_any_find [] k = ground arith
  in_any_find (p ∷ ps) k =
      ground (arith, in_any_find ps k, in_bucket-find_by p.id k db.buckets keyed_b)

  in_any-owned_by :
      (u k : ℕ)
      → IsKeyed (λ (p : Project). p.id) db.projects
      → in_any db (projects_of db u) k ≡ owned_by db u k
  unfolding owned_by bucket_owner find_bucket is_owner
  in_any-owned_by u k keyed_p =
      elim (Option-cases (find_by (λ (b : Bucket). b.id == k) db.buckets)) [
        | inl h ↦ ground (arith, in_any_find (projects_of db u) k)
        | inr (b, h) ↦ ground (
          arith,
          in_any_find (projects_of db u) k,
          has_project-select_by u b.project_id db.projects keyed_p,
        )
      ]

  -- The projects of a list share no bucket.
  apart :
      (p : Project) (ps : List Project) (k : ℕ)
      → any_by (λ (q : Project). q.id == p.id) ps ≡ false
      → is_in_bucket_of p.id db.buckets k ≡ true
      → in_any db ps k ≡ false
  unfolding any_by in_any
  apart p [] k h i = refl
  apart p (q ∷ ps) k h i = ground (
    arith,
    apart p ps k,
    in_bucket-find_by p.id k db.buckets keyed_b,
    in_bucket-find_by q.id k db.buckets keyed_b,
  )

  sum_sizes-project_rows :
      (ps : List Project)
      → IsKeyed (λ (p : Project). p.id) ps
      → sum_sizes (map (λ (r : UserRow). r.1) (project_rows db ps))
        ≡ sum_where (λ f. in_any db ps f.bucket_id) bytes db.files
  unfolding project_rows sum_sizes in_any any_by
  sum_sizes-project_rows [] keyed = sum_where-none db.files
  sum_sizes-project_rows (p ∷ ps) keyed =
      let in_p = λ (f : File). is_in_bucket_of p.id db.buckets f.bucket_id in
      let in_ps = λ (f : File). in_any db ps f.bucket_id in
      sum_sizes-tagged (some p.id) (or_null (rows_of_buckets db.files (buckets_of db p)))
        (project_rows db ps)
      ∙ omega (
        arith,
        sum_sizes-project db p keyed_b,
        sum_sizes-project_rows ps keyed.1,
        sum_where-split in_p in_ps (λ f. in_any db (p ∷ ps) f.bucket_id) db.files
            (λ f. apart p ps f.bucket_id keyed.0) (λ f. refl),
      )

  -- The bytes of a user are what the quota counts.
  storage_bytes_lem :
      (u : User)
      → IsKeyed (λ (p : Project). p.id) db.projects
      → (admin_user db u).storage_bytes ≡ total_bytes_by_user db u.id
  unfolding total_bytes_by_user
  storage_bytes_lem u keyed_p =
      let ps = projects_of db u.id in
      let keyed =
        select_by-IsKeyed (λ (p : Project). p.id) (λ p. p.user_id == u.id) db.projects keyed_p in
      sum_sizes-or_no_project (project_rows db ps)
      ∙ sum_sizes-project_rows ps keyed
      ∙ sum_where-same (λ f. in_any db ps f.bucket_id) (λ f. owned_by db u.id f.bucket_id) db.files
          (λ f. in_any-owned_by u.id f.bucket_id keyed_p)

  all_bytes :
      (us : List User)
      → IsKeyed (λ (p : Project). p.id) db.projects
      → map {B = ℕ × ℕ} (λ (a : AdminUser). (a.id, a.storage_bytes)) (map (admin_user db) us)
        ≡ map {B = ℕ × ℕ} (λ (u : User). (u.id, total_bytes_by_user db u.id)) us
  all_bytes [] keyed_p = refl
  all_bytes (u ∷ us) keyed_p =
      rw (storage_bytes_lem u keyed_p)
        (ap (λ l. (u.id, total_bytes_by_user db u.id) ∷ l) (all_bytes us keyed_p))

map-rows_before {ℓ κ} :
    {A : Type ℓ} {B : Type κ} (f : A → B) (n : Option ℕ) (xs : List A)
    → rows_before n (map f xs) ≡ map f (rows_before n xs)
map-rows_before f none xs = refl
map-rows_before f (some zero) xs = refl
map-rows_before f (some (suc n)) [] = refl
map-rows_before f (some (suc n)) (a ∷ xs) = ap (λ l. f a ∷ l) (map-rows_before f (some n) xs)

-- Where the identifiers of projects and buckets are distinct, the list of the users that administrators
-- see, if its query starts, has for every user the bytes that the quota of uploads counts for that user.
-- It has all the users in their order, or the first of them where the reading of the rows ends early.
pub users-total_bytes_by_user :
    (newer : User → User → Bool) (x : Ext) (w : World) {list : List AdminUser}
    → IsKeyed (λ (p : Project). p.id) w.db.projects
    → IsKeyed (λ (b : Bucket). b.id) w.db.buckets
    → (users newer x w).0 ≡ ok list
    → map {B = ℕ × ℕ} (λ (a : AdminUser). (a.id, a.storage_bytes)) list
      ≡ rows_before (x.rows_read (sql "admin.users" ∷ w.log)) (
          map {B = ℕ × ℕ}
            (λ (u : User). (u.id, total_bytes_by_user w.db u.id))
            (sort_by newer w.db.users))
unfolding users
users-total_bytes_by_user newer x w {list} keyed_p keyed_b h =
    let read = x.rows_read (sql "admin.users" ∷ w.log) in
    let us = sort_by newer w.db.users in
    let e : rows_before read (map (admin_user w.db) us) ≡ list = ground arith in
    let seen : AdminUser → ℕ × ℕ = λ a. (a.id, a.storage_bytes) in
    rw (sym e) (
      sym (map-rows_before {B = ℕ × ℕ} seen read (map (admin_user w.db) us))
      ∙ ap (rows_before read) (all_bytes w.db keyed_b us keyed_p))
