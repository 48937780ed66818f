-- ===== src/Middleware/ApiQuota.antt =====
-- pkg/middleware/api_quota.go: the monthly quota of requests by API key.
use nexium_storage_back.Shared.{
  ℕ, ◌+◌, ◌&&◌, Bool, true, false, Option, none, some, List, ◌∷◌, ◌==◌, ◌=s=◌, leb, find_by, any_by,
  update_where, if◌then◌else◌, api, Result, ok, err,
}
use nexium_storage_back.World.{
  User, Plan, Subscription, ApiRequestCount, Db, Action, pure, attempt, ◌>>=◌, ◌>>◌, raise_if,
  query, exec, now,
}
use nexium_storage_back.Calendar.{year_month}

abbrev pub is_of_month : ℕ → ℕ → ApiRequestCount → Bool
is_of_month user_id month c = c.user_id == user_id && c.month == month

-- `COALESCE((SELECT arc.count ...), 0)`
unfoldable pub request_count : Db → ℕ → ℕ → ℕ
request_count db user_id month = elim (find_by (is_of_month user_id month) db.api_request_counts) [
  | none ↦ 0
  | some c ↦ c.count
]

abbrev plan_limit : Option Plan → Option ℕ
plan_limit none = none
plan_limit (some p) = p.max_monthly_api_requests

-- `CASE WHEN s.id IS NOT NULL THEN p... ELSE fp... END` over the left joins.
unfoldable pub request_limit : Db → ℕ → Plan → Option ℕ
request_limit db user_id free =
    elim (find_by (λ (s : Subscription). s.user_id == user_id && s.status =s= "active")
      db.subscriptions) [
        | none ↦ free.max_monthly_api_requests
        | some s ↦ plan_limit (find_by (λ (p : Plan). p.id == s.plan_id) db.plans)
      ]

-- The row of the query: none for an unknown user, or where there is no free plan.
unfoldable pub quota_row : Db → ℕ → ℕ → Option (Option ℕ × ℕ)
quota_row db user_id month = elim (find_by (λ (u : User). u.id == user_id) db.users) [
  | none ↦ none
  | some u ↦ elim (find_by (λ (p : Plan). p.slug =s= "free") db.plans) [
    | none ↦ none
    | some free ↦ some (request_limit db user_id free, request_count db user_id month)
  ]
]

-- `limit != nil && count >= *limit`; an error of the query lets the request pass.
abbrev quota_exceeded : Result (Option (Option ℕ × ℕ)) → Bool
quota_exceeded (ok (some (some limit, count))) = leb limit count
quota_exceeded (ok (some (none, count))) = false
quota_exceeded (ok none) = false
quota_exceeded (err e) = false

-- Whether a request that passes is counted: not where the query has failed.
abbrev is_counted : Result (Option (Option ℕ × ℕ)) → Bool
is_counted (ok (some row)) = true
is_counted (ok none) = false
is_counted (err e) = false

-- The check before the handler: an error, or whether the request is to be counted, and its month.
unfoldable pub check_api_quota : ℕ → Action (Bool × ℕ)
check_api_quota user_id = do
  t ← now
  answer ← attempt (query "EnforceAPIQuota" (λ _ db. quota_row db user_id (year_month t)))
  raise_if (quota_exceeded answer) (api 429 "monthly API quota exceeded — upgrade your plan")
  pure (is_counted answer, year_month t)

unfoldable pub incremented : ℕ → ℕ → List ApiRequestCount → List ApiRequestCount
incremented user_id month rows =
    if any_by (is_of_month user_id month) rows
    then update_where (is_of_month user_id month) (λ c. record c { count = c.count + 1 }) rows
    else record { user_id = user_id; month = month; count = 1 } ∷ rows

-- The statement of the goroutine that is started after the handler.
unfoldable pub count_request : ℕ → ℕ → Action (Unit {0})
count_request user_id month =
    exec "EnforceAPIQuota.increment"
      (λ _ db. record db { api_request_counts = incremented user_id month db.api_request_counts })
