-- ===== src/Billing/Store/Plans.antt =====
-- internal/billing/store.go: plans and subscriptions.
use nexium_storage_back.Shared.{
  ℕ, ◌+◌, ◌*◌, ◌&&◌, String, Option, none, some, List, [], ◌∷◌, ◌==◌, ◌=s=◌, ltb, if◌then◌else◌,
  find_by, any_by, select_by, update_where,
}
use nexium_storage_back.World.{
  Plan, Subscription, BillingPayment, StorageAddon, Db, Action, query, exec,
}

-- The struct `BillingPayment`: the row, its plan, and a reason that is no column.
pub record PaymentInfo : Type 0 where
  pub row : BillingPayment
  pub plan : Plan
  pub failure_reason : String

pub record AddonInfo : Type 0 where
  pub row : StorageAddon
  pub failure_reason : String

-- `COALESCE(adullam_id, '')` and `NULLIF($3, '')`
abbrev pub gateway_id : Option String → String
gateway_id none = ""
gateway_id (some id) = id

abbrev pub null_if_empty : String → Option String
null_if_empty s = if s =s= "" then none else some s

unfoldable pub find_plan : Db → ℕ → Option Plan
find_plan db id = find_by (λ (p : Plan). p.id == id) db.plans

unfoldable pub find_plan_by_slug : Db → String → Option Plan
find_plan_by_slug db slug = find_by (λ (p : Plan). p.slug =s= slug) db.plans

unfoldable pub get_plan_by_id : ℕ → Action (Option Plan)
get_plan_by_id id = query "billing.GetPlanByID" (λ _ db. find_plan db id)

unfoldable pub get_plan_by_slug : String → Action (Option Plan)
get_plan_by_slug slug = query "billing.GetPlanBySlug" (λ _ db. find_plan_by_slug db slug)

-- `ORDER BY price_xof ASC`
unfoldable insert_cheapest : Plan → List Plan → List Plan
insert_cheapest p [] = p ∷ []
insert_cheapest p (q ∷ qs) =
    if ltb q.price_xof p.price_xof then q ∷ insert_cheapest p qs else p ∷ q ∷ qs

unfoldable pub cheapest_first : List Plan → List Plan
unfolding insert_cheapest
cheapest_first [] = []
cheapest_first (p ∷ ps) = insert_cheapest p (cheapest_first ps)

unfoldable pub list_plans : Action (List Plan)
list_plans =
    query "billing.ListPlans"
      (λ _ db. cheapest_first (select_by (λ (p : Plan). p.is_active) db.plans))

unfoldable pub find_subscription : Db → ℕ → Option (Subscription × Plan)
find_subscription db user_id =
    elim (find_by (λ (s : Subscription). s.user_id == user_id) db.subscriptions) [
      | none ↦ none
      | some s ↦ elim (find_plan db s.plan_id) [ none ↦ none | some p ↦ some (s, p) ]
    ]

unfoldable pub get_subscription_row : ℕ → Action (Option (Subscription × Plan))
get_subscription_row user_id =
    query "billing.GetSubscription" (λ _ db. find_subscription db user_id)

-- 30 days, in seconds
abbrev grace_period : ℕ
grace_period = 30 * 86400

abbrev pub expired : ℕ → Subscription → Subscription
expired t s = record s { status = "expired"; data_grace_end = some (t + grace_period) }

unfoldable pub expire_rows : ℕ → ℕ → List Subscription → List Subscription
expire_rows user_id t =
    update_where (λ s. s.user_id == user_id && s.status =s= "active") (expired t)

unfoldable pub expire_subscription : ℕ → Action (Unit {0})
expire_subscription user_id =
    exec "billing.ExpireSubscription"
      (λ t db. record db { subscriptions = expire_rows user_id t db.subscriptions })

-- The row that `INSERT` makes, and what `ON CONFLICT (user_id) DO UPDATE` makes of the old one.
abbrev pub new_subscription : ℕ → ℕ → String → Option ℕ → ℕ → Subscription
new_subscription user_id plan_id status period_end t = record {
  user_id = user_id;
  plan_id = plan_id;
  status = status;
  current_period_start = t;
  current_period_end = period_end;
  data_grace_end = none;
  reminded_10d_at = none;
  reminded_5d_at = none;
  reminded_2d_at = none;
  grace_reminded_15d_at = none;
  grace_reminded_7d_at = none;
  grace_reminded_1d_at = none;
}

abbrev pub renewed : ℕ → String → Option ℕ → ℕ → Subscription → Subscription
renewed plan_id status period_end t s = record s {
  plan_id = plan_id;
  status = status;
  current_period_start = t;
  current_period_end = period_end;
  data_grace_end = none;
  grace_reminded_15d_at = none;
  grace_reminded_7d_at = none;
  grace_reminded_1d_at = none;
}

unfoldable pub upsert_rows : ℕ → ℕ → String → Option ℕ → ℕ → List Subscription → List Subscription
upsert_rows user_id plan_id status period_end t rows =
    if any_by (λ s. s.user_id == user_id) rows
    then update_where (λ s. s.user_id == user_id) (renewed plan_id status period_end t) rows
    else new_subscription user_id plan_id status period_end t ∷ rows

unfoldable pub upsert_subscription : ℕ → ℕ → String → Option ℕ → Action (Unit {0})
upsert_subscription user_id plan_id status period_end = exec "billing.UpsertSubscription" (λ t db.
    record db { subscriptions = upsert_rows user_id plan_id status period_end t db.subscriptions })
