-- ===== src/Http/Meters.antt =====
-- What internal/billing/handler.go shows a user, against what the quotas check.
use nexium_storage_back.Shared.{
  ℕ, ◌≡◌, Bool, true, false, none, some, ◌∷◌, leb, if◌then◌else◌, arith, api, ok, err, Option-cases,
  inl, inr, find_by, any_by, List, [], ◌&&◌, Option, IsKeyed, refl, ◌==◌, ◌=s=◌, subst, sym, ==_iff,
  find_by_sound,
}
use nexium_storage_back.World.{
  User, Log, sql, clock_read, Ext, World, Db, Project, Bucket, File, Plan,
}
use nexium_storage_back.Calendar.{year_month}
use nexium_storage_back.Files.{
  total_storage_bytes_by_user, total_bytes_by_user, owned_by, bucket_owner, find_bucket,
}
use nexium_storage_back.Middleware.{
  Context, check_api_quota, quota_row, request_limit, request_count,
}
use nexium_storage_back.Usage.Totals.{sum_where-same}
use nexium_storage_back.Http.Quotas.{
  is_stored_by, consumption_of, Consumption, consumption_row, get_consumption,
}

-- The numbers leave no request.
abbrev pub is_used_up : Consumption → Bool
is_used_up k = elim k.api_requests_limit as (λ _. Bool) [
  | none ↦ false
  | some limit ↦ leb limit k.api_requests_used
]

abbrev holds {ℓ} : {A : Type ℓ} → (A → Bool) → Option A → Bool
holds q none = false
holds q (some a) = q a

no_key {ℓ} :
    {A : Type ℓ} (key : A → ℕ) (q : A → Bool) (k : ℕ) (xs : List A)
    → any_by (λ a. key a == k) xs ≡ false
    → any_by (λ a. key a == k && q a) xs ≡ false
unfolding any_by
no_key key q k [] h = refl
no_key key q k (a ∷ xs) h = ground (arith, no_key key q k xs)

-- Where the keys are distinct, a join by the key meets one row at most.
any_by-find_by_key {ℓ} :
    {A : Type ℓ} (key : A → ℕ) (q : A → Bool) (k : ℕ) (xs : List A)
    → IsKeyed key xs
    → any_by (λ a. key a == k && q a) xs ≡ holds q (find_by (λ a. key a == k) xs)
unfolding any_by find_by
any_by-find_by_key key q k [] keyed = refl
any_by-find_by_key key q k (a ∷ xs) keyed = ground (
  arith,
  any_by-find_by_key key q k xs keyed.1,
  no_key key q (key a) xs keyed.0,
  ==_iff (key a) k,
)

-- The joins of the sum of bytes find the files of the buckets that the user owns.
is_stored_by-owned_by :
    (db : Db) (u : ℕ) (f : File)
    → IsKeyed (λ (p : Project). p.id) db.projects
    → IsKeyed (λ (b : Bucket). b.id) db.buckets
    → is_stored_by db u f ≡ owned_by db u f.bucket_id
unfolding owned_by bucket_owner find_bucket
is_stored_by-owned_by db u f keyed_p keyed_b =
    let q : Project → Bool = λ p. p.user_id == u in
    let joined : Bucket → Bool =
      λ b. any_by (λ (p : Project). p.id == b.project_id && p.user_id == u) db.projects in
    let buckets = any_by-find_by_key (λ (b : Bucket). b.id) joined f.bucket_id db.buckets keyed_b in
    elim (Option-cases (find_by (λ (b : Bucket). b.id == f.bucket_id) db.buckets)) [
      | inl e ↦ ground (arith, buckets)
      | inr (b, e) ↦ ground (
        arith,
        buckets,
        any_by-find_by_key (λ (p : Project). p.id) q b.project_id db.projects keyed_p,
      )
    ]

module _ (c : Context) (u : ℕ) (x : Ext) (w : World) {k : Consumption} (user : c.user_id ≡ some u)
    (returns : (get_consumption c x w).0 ≡ ok k)
    (keyed_p : IsKeyed (λ (p : Project). p.id) w.db.projects)
    (keyed_b : IsKeyed (λ (b : Bucket). b.id) w.db.buckets) where
  abbrev this_month : ℕ
  this_month = year_month (x.clock (clock_read ∷ w.log))

  -- The row that the numbers come from.
  row_behind :
      (v : User) × (fp : Plan) × (find_by (λ (y : User). y.id == u) w.db.users ≡ some v)
      × (find_by (λ (y : Plan). y.slug =s= "free") w.db.plans ≡ some fp)
      × (k ≡ consumption_of w.db u this_month v fp)
  unfolding get_consumption consumption_row
  row_behind = elim (Option-cases (find_by (λ (y : User). y.id == u) w.db.users)) [
    | inl e ↦ absurd (ground arith)
    | inr (v, e) ↦ elim (Option-cases (find_by (λ (y : Plan). y.slug =s= "free") w.db.plans)) [
      | inl e' ↦ absurd (ground arith)
      | inr (fp, e') ↦ (v, fp, e, e', ground arith)
    ]
  ]

  bytes_behind : k.storage_used_bytes ≡ total_bytes_by_user w.db u
  unfolding total_bytes_by_user
  bytes_behind =
      let (v, fp, e, e', same) = row_behind in
      rw same (
        sum_where-same (is_stored_by w.db u) (λ f. owned_by w.db u f.bucket_id) w.db.files
          (λ f. is_stored_by-owned_by w.db u f keyed_p keyed_b))

  requests_behind : quota_row w.db u this_month ≡ some (k.api_requests_limit, k.api_requests_used)
  unfolding quota_row request_limit request_count
  requests_behind =
      let (v, fp, e, e', same) = row_behind in
      let id : v.id ≡ u =
        (==_iff v.id u).0 (find_by_sound (λ (y : User). y.id == u) w.db.users {x = v} e) in
      rw (same, id) (ground arith)

  month_behind : k.month ≡ this_month
  month_behind = let (v, fp, e, e', same) = row_behind in rw same refl

-- For a user, the numbers of `getConsumption`, if it returns, are what the quotas check on the same
-- tables by statements of their own: in the same month a request by API key is refused exactly if they
-- leave none, and the bytes are those that uploads are counted by. It holds where the identifiers of
-- projects and of buckets are distinct and the statements of the quotas do not fail.
pub get_consumption-check_api_quota :
    (c : Context) (u : ℕ) (x x' : Ext) (w : World) (l : Log) {k : Consumption}
    → c.user_id ≡ some u
    → (get_consumption c x w).0 ≡ ok k
    → IsKeyed (λ (p : Project). p.id) w.db.projects
    → IsKeyed (λ (b : Bucket). b.id) w.db.buckets
    → year_month (x'.clock (clock_read ∷ l)) ≡ year_month (x.clock (clock_read ∷ w.log))
    → x'.fails (sql "EnforceAPIQuota" ∷ clock_read ∷ l) ≡ false
    → x'.fails (sql "files.TotalStorageBytesByUser" ∷ l) ≡ false
    → let w' : World = record w { log = l } in
      ((check_api_quota u x' w').0 ≡ (
        if is_used_up k
        then err (api 429 "monthly API quota exceeded — upgrade your plan")
        else ok (true, k.month)))
      × ((total_storage_bytes_by_user u x' w').0 ≡ ok k.storage_used_bytes)
unfolding check_api_quota total_storage_bytes_by_user
get_consumption-check_api_quota c u x x' w l {k = k} user h keyed_p keyed_b same up up' =
    let row = requests_behind c u x w {k = k} user h keyed_p keyed_b in
    let month = month_behind c u x w {k = k} user h keyed_p keyed_b in
    let total = bytes_behind c u x w {k = k} user h keyed_p keyed_b in
    let row' =
      subst (λ m. quota_row w.db u m ≡ some (k.api_requests_limit, k.api_requests_used)) (sym same)
        row in
    (ground (arith, row', month), ground (arith, total))
