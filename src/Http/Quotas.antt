-- ===== src/Http/Quotas.antt =====
-- internal/billing/handler.go: `getConsumption`, what a user has used and may use.
use nexium_storage_back.Shared.{
  ℕ, Bool, ◌&&◌, Option, none, some, ℤ, pos, ◌==◌, ◌=s=◌, find_by, any_by, sum_where, infra,
}
use nexium_storage_back.World.{
  ApiRequestCount, Bucket, File, Plan, Project, Subscription, User, Db, Action, ◌>>=◌, query, now,
}
use nexium_storage_back.Calendar.{year_month}
use nexium_storage_back.Middleware.{Context}
use nexium_storage_back.Http.Files.{required}

pub record Consumption : Type 0 where
  pub storage_used_bytes : ℕ
  pub storage_quota_bytes : ℤ
  pub api_requests_used : ℕ
  pub api_requests_limit : Option ℕ
  pub month : ℕ

-- `COALESCE(u.storage_quota_bytes, 0)`
abbrev quota_or_zero : Option ℤ → ℤ
quota_or_zero none = pos 0
quota_or_zero (some q) = q

-- `SUM(f.size_bytes)` over `files f JOIN buckets b ON b.id = f.bucket_id JOIN projects p ON
-- p.id = b.project_id WHERE p.user_id = $1`: whether a row of the files is joined.
abbrev joins_project : Db → ℕ → Bucket → Bool
joins_project db user_id b =
    any_by (λ (p : Project). p.id == b.project_id && p.user_id == user_id) db.projects

abbrev pub is_stored_by : Db → ℕ → File → Bool
is_stored_by db user_id f =
    any_by (λ (b : Bucket). b.id == f.bucket_id && joins_project db user_id b) db.buckets

-- `COALESCE((SELECT arc.count ... WHERE arc.user_id = $1 AND arc.month = $2), 0)`
abbrev pub count_or_zero : Option ApiRequestCount → ℕ
count_or_zero none = 0
count_or_zero (some arc) = arc.count

-- `LEFT JOIN plans pl ON pl.id = s.plan_id`: the column of the plan, `NULL` without one.
abbrev limit_of_plan : Db → Subscription → Option ℕ
limit_of_plan db s = elim (find_by (λ (pl : Plan). pl.id == s.plan_id) db.plans) [
  | none ↦ none
  | some pl ↦ pl.max_monthly_api_requests
]

-- The `CASE`, after `LEFT JOIN subscriptions s ON s.user_id = u.id AND s.status = 'active'`.
abbrev pub limit_of_case : Db → ℕ → Plan → Option ℕ
limit_of_case db id fp =
    let is_active : Subscription → Bool = λ s. s.user_id == id && s.status =s= "active" in
    elim (find_by is_active db.subscriptions) [
      | none ↦ fp.max_monthly_api_requests
      | some s ↦ limit_of_plan db s
    ]

abbrev pub consumption_of : Db → ℕ → ℕ → User → Plan → Consumption
consumption_of db user_id month u fp = record {
  storage_used_bytes = sum_where (is_stored_by db user_id) (λ (f : File). f.size_bytes) db.files;
  storage_quota_bytes = quota_or_zero u.storage_quota_bytes;
  api_requests_used = count_or_zero (
      find_by (λ (arc : ApiRequestCount). arc.user_id == user_id && arc.month == month)
        db.api_request_counts);
  api_requests_limit = limit_of_case db u.id fp;
  month = month;
}

-- `FROM users u CROSS JOIN (SELECT ... FROM plans WHERE slug = 'free' LIMIT 1) fp ... WHERE u.id = $1`
unfoldable pub consumption_row : Db → ℕ → ℕ → Option Consumption
consumption_row db user_id month = elim (find_by (λ (u : User). u.id == user_id) db.users) [
  | none ↦ none
  | some u ↦ elim (find_by (λ (p : Plan). p.slug =s= "free") db.plans) [
    | none ↦ none
    | some fp ↦ some (consumption_of db user_id month u fp)
  ]
]

-- `userID, _ := mw.GetUserID(r)`: the identifier of zeros without a user.
abbrev user_or_zero : Option ℕ → ℕ
user_or_zero none = 0
user_or_zero (some id) = id

unfoldable pub get_consumption : Context → Action Consumption
get_consumption c = do
  t ← now
  row ←
      query "billing.getConsumption"
        (λ _ db. consumption_row db (user_or_zero c.user_id) (year_month t))
  required infra row
