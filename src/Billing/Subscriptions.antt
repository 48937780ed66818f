-- ===== src/Billing/Subscriptions.antt =====
-- internal/billing/service.go: subscriptions, their activation and their expiry. What
-- cmd/server/main.go injects, `SetQuotaFn` and `GetUserInfoFn`, are fields of the service.
use nexium_storage_back.Shared.{
  ℕ, Bool, false, String, Option, none, some, ◌=s=◌, ltb, if◌then◌else◌, ℤ, pos, add_int64, Result,
  ok, err,
}
use nexium_storage_back.World.{
  Plan, Subscription, spawn, Action, pure, attempt, ignore, ◌>>=◌, ◌>>◌, read, now,
}
use nexium_storage_back.Calendar.{add_month}
use nexium_storage_back.Billing.Store.{
  get_plan_by_slug, get_subscription_row, expire_subscription, upsert_subscription,
  sum_completed_addon_bytes,
}

pub record Service : Type 0 where
  pub set_quota : ℕ → Option ℤ → Action (Unit {0})
  -- the name and the e-mail address
  pub get_user_info : ℕ → Action (String × String)
  -- `s.mail != nil && s.getUserInfo != nil`
  pub sends_mail : Bool
  -- strings.ToUpper
  pub to_upper : String → String

unfoldable pub expire_user : Service → ℕ → Action (Unit {0})
expire_user s user_id = do
  expire_subscription user_id
  free ← get_plan_by_slug "free"
  elim free [ none ↦ pure tt | some f ↦ s.set_quota user_id (some (pos f.storage_bytes)) ]

free_plan : Action (Option Subscription × Option Plan)
free_plan = do free ← get_plan_by_slug "free"; pure (none, free)

-- `sub.CurrentPeriodEnd != nil && time.Now().After(*sub.CurrentPeriodEnd)`
unfoldable pub period_over : Option ℕ → Action Bool
period_over none = pure false
period_over (some end) = do t ← now; pure (ltb end t)

unfoldable pub current_or_free :
    Service → ℕ → Subscription → Plan → Action (Option Subscription × Option Plan)
unfolding free_plan
current_or_free s user_id sub plan = do
  over ← period_over sub.current_period_end
  if over then ignore (expire_user s user_id) >> free_plan else pure (some sub, some plan)

unfoldable pub get_subscription : Service → ℕ → Action (Option Subscription × Option Plan)
unfolding free_plan
get_subscription s user_id = do
  found ← get_subscription_row user_id
  elim found [
    | none ↦ free_plan
    | some (sub, plan) ↦
        if sub.status =s= "active" then current_or_free s user_id sub plan else free_plan
  ]

-- The limit where the free plan cannot be read: 100 MB.
abbrev fallback_file_bytes : ℕ
fallback_file_bytes = 104857600

abbrev free_file_bytes : Result (Option Plan) → ℕ
free_file_bytes (err e) = fallback_file_bytes
free_file_bytes (ok none) = fallback_file_bytes
free_file_bytes (ok (some free)) = free.max_file_bytes

free_file_size_limit : Action ℕ
free_file_size_limit = do free ← attempt (get_plan_by_slug "free"); pure (free_file_bytes free)

unfoldable pub get_user_file_size_limit : ℕ → Action ℕ
unfolding free_file_size_limit
get_user_file_size_limit user_id = do
  found ← get_subscription_row user_id
  elim found [
    | none ↦ free_file_size_limit
    | some (sub, plan) ↦
        if sub.status =s= "active" then pure plan.max_file_bytes else free_file_size_limit
  ]

-- `v, _ := f()`
abbrev or_zero : Result ℕ → ℕ
or_zero (ok n) = n
or_zero (err e) = 0

-- `go f()`, if mail is configured
unfoldable pub start_mail : Service → String → ℕ → Action (Unit {0})
start_mail s kind user_id = if s.sends_mail then read (λ x l. tt) (spawn kind user_id) else pure tt

unfoldable pub activate_subscription : Service → ℕ → Plan → Action (Unit {0})
activate_subscription s user_id plan = do
  t ← now
  upsert_subscription user_id plan.id "active" (some (add_month t))
  addon_bytes ← attempt (sum_completed_addon_bytes user_id)
  s.set_quota user_id (some (add_int64 plan.storage_bytes (or_zero addon_bytes)))
  start_mail s "sendActivationEmail" user_id
