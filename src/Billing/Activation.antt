-- ===== src/Billing/Activation.antt =====
-- Activation of a subscription (internal/billing/service.go), and what the user then has.
use nexium_storage_back.Shared.{
  ℕ, ◌<◌, ◌≡◌, ◌⊎◌, Bool, true, false, String, Option, none, some, ◌∷◌, ◌=s=◌, ltb, ℤ, pos,
  add_int64, Result, ok, err, Yields, arith, if◌then◌else◌,
}
use nexium_storage_back.World.{Plan, Subscription, Db, Ext, World, Log, clock_read, sql}
use nexium_storage_back.Calendar.{add_month}
use nexium_storage_back.Billing.Store.{
  upsert_subscription, upsert_rows, new_subscription, renewed, sum_completed_addon_bytes,
  completed_addon_bytes, get_subscription_row, find_subscription, find_plan_by_slug,
  get_plan_by_slug, expire_subscription, expire_rows,
}
use nexium_storage_back.Billing.Subscriptions.{
  Service, activate_subscription, start_mail, get_subscription, expire_user, period_over,
  current_or_free,
}
use nexium_storage_back.Billing.Laws.{
  ServiceLaws, with_quota, subscription_of, subscription_of-upsert_rows,
}

-- The row that the user's subscription becomes.
abbrev activated : ℕ → Plan → ℕ → ℕ → Option Subscription → Subscription
activated u plan start t none = new_subscription u plan.id "active" (some (add_month t)) start
activated u plan start t (some r) = renewed plan.id "active" (some (add_month t)) start r

-- The quota: the plan's bytes and those of the completed add-ons, which count as none where their
-- sum cannot be read.
abbrev activated_quota : Bool → Db → ℕ → Plan → ℤ
activated_quota sum_fails db u plan =
    add_int64 plan.storage_bytes (if sum_fails then 0 else completed_addon_bytes db u)

start_mail-db :
    (s : Service) (kind : String) (u : ℕ) (x : Ext) (w : World)
    → ((start_mail s kind u x w).1.db ≡ w.db) × ((start_mail s kind u x w).0 ≡ ok tt)
unfolding start_mail
start_mail-db s kind u x w = ground arith

-- The tables once the subscription is written, and once the quota is too.
abbrev subscribed : ℕ → Plan → Ext → World → Db
subscribed u plan x w =
    let l1 : Log = clock_read ∷ w.log in
    record (w.db) {
      subscriptions =
          upsert_rows u plan.id "active" (some (add_month (x.clock l1)))
            (x.clock (sql "billing.UpsertSubscription" ∷ l1)) w.db.subscriptions;
    }

abbrev addon_sum_fails : Ext → World → Bool
addon_sum_fails x w =
    x.fails
      (sql "billing.SumCompletedAddonBytes" ∷ sql "billing.UpsertSubscription" ∷ clock_read ∷ w.log)

abbrev pub with_activated_quota : ℕ → Plan → Ext → World → Db → Db
with_activated_quota u plan x w db = record db {
  users = with_quota u (some (activated_quota (addon_sum_fails x w) w.db u plan)) w.db.users;
}

abbrev Activated : ℕ → Plan → Ext → World → Result (Unit {0}) → Db → Type 0
Activated u plan x w (ok _) db' = db' ≡ with_activated_quota u plan x w (subscribed u plan x w)
Activated u plan x w (err e) db' = (db' ≡ w.db) ⊎ (db' ≡ subscribed u plan x w)

-- The calls up to the write of the expiry, and the tables after it.
abbrev expiry_log : World → Log
expiry_log w = sql "billing.ExpireSubscription" ∷ clock_read ∷ sql "billing.GetSubscription" ∷ w.log

abbrev expired_db : ℕ → Ext → World → Db
expired_db u x w = record (w.db) {
  subscriptions = expire_rows u (x.clock (expiry_log w)) w.db.subscriptions;
}

-- What `GetSubscription` returns: an active subscription whose period was not over when the clock
-- was read, or none, with the free plan.
abbrev IsCurrent : Ext → Log → Option Subscription → Type 0
IsCurrent x l none = Unit
IsCurrent x l (some r) =
    (r.status =s= "active" ≡ true)
    × (elim r.current_period_end as (λ _. Bool) [ none ↦ false | some end ↦ ltb end (x.clock l) ]
        ≡ false)

module _ (s : Service) (laws : ServiceLaws s) where
  open laws use {set_quota_writes, get_user_info_reads}

  pub activate-Activated :
      (u : ℕ) (plan : Plan) (x : Ext) (w : World)
      → let (r, w') = activate_subscription s u plan x w in Activated u plan x w r w'.db
  unfolding activate_subscription upsert_subscription sum_completed_addon_bytes
      completed_addon_bytes start_mail
  activate-Activated u plan x w =
      let l2 : Log = sql "billing.UpsertSubscription" ∷ clock_read ∷ w.log in
      let l3 : Log = sql "billing.SumCompletedAddonBytes" ∷ l2 in
      let w3 : World = record { db = subscribed u plan x w; log = l3 } in
      ground
        (arith, set_quota_writes u (some (activated_quota (addon_sum_fails x w) w.db u plan)) x w3)

  -- An activation that returns leaves the user with an active subscription to the plan, which ends
  -- a month after the clock was read and has no deletion date, and with the quota of the plan and
  -- the completed add-ons (the plan alone, if their sum could not be read). Only the tables of the
  -- subscriptions and the users have changed.
  pub activate_grants :
      (u : ℕ) (plan : Plan) (x : Ext) (w : World)
      → (activate_subscription s u plan x w).0 ≡ ok tt
      → let db' = (activate_subscription s u plan x w).1.db in
        ((r : Subscription) × (subscription_of u db'.subscriptions ≡ some r)
          × (r.status ≡ "active")
          × (r.plan_id ≡ plan.id)
          × (r.current_period_end ≡ some (add_month (x.clock (clock_read ∷ w.log))))
          × (r.data_grace_end ≡ none))
        × (db'
            ≡ with_activated_quota u plan x w (record (w.db) { subscriptions = db'.subscriptions }))
  activate_grants u plan x w h =
      let l1 : Log = clock_read ∷ w.log in
      let t = x.clock (sql "billing.UpsertSubscription" ∷ l1) in
      let e =
        subscription_of-upsert_rows u plan.id "active" (some (add_month (x.clock l1))) t
          w.db.subscriptions in
      let r = activated u plan t (x.clock l1) (subscription_of u w.db.subscriptions) in
      let d : (activate_subscription s u plan x w).1.db
          ≡ with_activated_quota u plan x w (subscribed u plan x w) =
        ground (arith, activate-Activated u plan x w) in
      (
        (r, rw d (ground (arith, e)), ground arith, ground arith, ground arith, ground arith),
        ground (arith, d),
      )

  -- Whatever the tables hold, the plan that a user is told to be on is either that of a
  -- subscription which is marked active and whose period had not ended when the clock was read, or
  -- the free plan.
  get_subscription-IsCurrent :
      (u : ℕ) (x : Ext) (w : World)
      → Yields
          (λ found. IsCurrent x (clock_read ∷ sql "billing.GetSubscription" ∷ w.log) found.0)
          (get_subscription s u x w).0
  unfolding get_subscription get_subscription_row get_plan_by_slug current_or_free period_over
  get_subscription-IsCurrent u x w = ground arith

  -- A user whose active subscription is over is moved to the free plan when it is next read, if the
  -- statements succeed: the row is expired with 30 days of grace, and the quota is that of the
  -- free plan.
  overdue_expires :
      (u : ℕ) (x : Ext) (w : World) {r : Subscription} {plan free : Plan} {end : ℕ}
      → find_subscription w.db u ≡ some (r, plan)
      → (r.status =s= "active") ≡ true
      → r.current_period_end ≡ some end
      → end < x.clock (clock_read ∷ sql "billing.GetSubscription" ∷ w.log)
      → find_plan_by_slug w.db "free" ≡ some free
      → x.fails (sql "billing.GetSubscription" ∷ w.log) ≡ false
      → x.fails (expiry_log w) ≡ false
      → x.fails (sql "billing.GetPlanBySlug" ∷ expiry_log w) ≡ false
      → (s.set_quota u
          (some (pos free.storage_bytes))
          x
          (record { db = expired_db u x w; log = sql "billing.GetPlanBySlug" ∷ expiry_log w })).0
        ≡ ok tt
      → (get_subscription s u x w).1.db ≡ record (expired_db u x w) {
        users = with_quota u (some (pos free.storage_bytes)) w.db.users;
      }
  unfolding get_subscription get_subscription_row get_plan_by_slug current_or_free period_over
      expire_user expire_subscription find_plan_by_slug
  overdue_expires u x w {free = free} h1 h2 h3 h4 h5 h6 h7 h8 h9 = ground (
    arith,
    set_quota_writes u (some (pos free.storage_bytes)) x
        (record { db = expired_db u x w; log = sql "billing.GetPlanBySlug" ∷ expiry_log w }),
  )
