-- ===== src/Expiry/Job/Ending.antt =====
-- internal/expiry/job.go: the subscriptions that are over.
use nexium_storage_back.Shared.{
  ℕ, Bool, ◌&&◌, none, some, List, [], ◌==◌, ◌=s=◌, select_by, update_where, map, pos,
}
use nexium_storage_back.World.{User, Subscription, Db, Action, ◌>>=◌, ◌>>◌, query, exec}
use nexium_storage_back.Billing.{find_plan_by_slug, expire_rows}
use nexium_storage_back.Expiry.Job.Loops.{for_each, is_before}

-- `s.status = 'active' AND s.current_period_end < now()`
abbrev pub is_overdue : ℕ → Subscription → Bool
is_overdue t s = s.status =s= "active" && is_before t s.current_period_end

-- The users whose subscription is over, with the bytes of the free plan; none without that plan.
unfoldable pub expired_subs : ℕ → Db → List (ℕ × ℕ)
expired_subs t db = elim (find_plan_by_slug db "free") [
  | none ↦ []
  | some free ↦
      map (λ (s : Subscription). (s.user_id, free.storage_bytes))
        (select_by (is_overdue t) db.subscriptions)
]

unfoldable pub expire_one : ℕ × ℕ → Action (Unit {0})
expire_one e = do
  exec "expiry.expireSubscription"
      (λ t db. record db { subscriptions = expire_rows e.0 t db.subscriptions })
  exec "expiry.resetQuota" (λ _ db. record db {
    users =
        update_where (λ (u : User). u.id == e.0)
          (λ u. record u { storage_quota_bytes = some (pos e.1) }) db.users;
  })

unfoldable pub expire_subscriptions : Action (Unit {0})
expire_subscriptions = do
  subs ← query "expiry.expireSubscriptions" expired_subs
  for_each expire_one subs
