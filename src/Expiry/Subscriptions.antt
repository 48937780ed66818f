-- ===== src/Expiry/Subscriptions.antt =====
-- What the job of internal/expiry/job.go does to the subscriptions that are over.
use nexium_storage_back.Shared.{
  ℕ, ◌≡◌, refl, sym, subst, ==_iff, inl, inr, Bool, true, false, ◌&&◌, String, none, some, List, [],
  ◌∷◌, ◌==◌, ◌=s=◌, if◌then◌else◌, find_by, any_by, select_by, update_where, map, pos, arith,
  Bool-cases,
}
use nexium_storage_back.World.{User, Plan, Subscription, Db, Log, sql, Ext, World}
use nexium_storage_back.Billing.{find_plan_by_slug, expire_rows, expired}
use nexium_storage_back.Expiry.Job.{
  for_each, is_overdue, expired_subs, expire_one, expire_subscriptions,
}

abbrev pub is_active_of : ℕ → Subscription → Bool
is_active_of v s = s.user_id == v && s.status =s= "active"

-- The row after the update is not active.
expired_row :
    (v t : ℕ) (s : Subscription)
    → is_active_of v (if is_active_of v s then expired t s else s) ≡ false
expired_row v t s = elim (Bool-cases (is_active_of v s)) [
  | inl e ↦ rw e (ground arith)
  | inr e ↦ rw e e
]

expire_rows-none :
    (v t : ℕ) (rows : List Subscription) → any_by (is_active_of v) (expire_rows v t rows) ≡ false
unfolding expire_rows any_by update_where
expire_rows-none v t [] = refl
expire_rows-none v t (s ∷ rows) = rw (expired_row v t s) (expire_rows-none v t rows)

expire_rows-keeps :
    (u v t : ℕ) (rows : List Subscription)
    → any_by (is_active_of v) rows ≡ false
    → any_by (is_active_of v) (expire_rows u t rows) ≡ false
unfolding expire_rows any_by update_where
expire_rows-keeps u v t [] h = refl
expire_rows-keeps u v t (s ∷ rows) h = ground (arith, expire_rows-keeps u v t rows)

abbrev with_bytes : ℕ → ℕ → List User → List User
with_bytes id bytes =
    update_where (λ (u : User). u.id == id)
      (λ u. record u { storage_quota_bytes = some (pos bytes) })

-- The quota of the user's row, where there is one, is so many bytes.
abbrev HasQuota : ℕ → ℕ → List User → Type 0
HasQuota v bytes users = elim (find_by (λ (u : User). u.id == v) users) [
  | none ↦ Unit
  | some u ↦ u.storage_quota_bytes ≡ some (pos bytes)
]

with_bytes-HasQuota : (v bytes : ℕ) (us : List User) → HasQuota v bytes (with_bytes v bytes us)
unfolding find_by update_where
with_bytes-HasQuota v bytes [] = tt
with_bytes-HasQuota v bytes (u ∷ us) = ground (arith, with_bytes-HasQuota v bytes us)

with_bytes-keeps :
    (u v bytes : ℕ) (us : List User)
    → HasQuota v bytes us
    → HasQuota v bytes (with_bytes u bytes us)
unfolding find_by update_where
with_bytes-keeps u v bytes [] h = tt
with_bytes-keeps u v bytes (y ∷ us) h = ground (arith, with_bytes-keeps u v bytes us)

-- The user has no active subscription, and the quota.
abbrev pub Ended : ℕ → ℕ → Db → Type 0
Ended v bytes db = (any_by (is_active_of v) db.subscriptions ≡ false) × HasQuota v bytes db.users

expire_one-own :
    (v bytes : ℕ) (x : Ext) (w : World)
    → ((name : String) (l : Log) → x.fails (sql name ∷ l) ≡ false)
    → Ended v bytes (expire_one (v, bytes) x w).1.db
unfolding expire_one
expire_one-own v bytes x w up =
    let l1 : Log = sql "expiry.expireSubscription" ∷ w.log in
    let none_left = expire_rows-none v (x.clock l1) w.db.subscriptions in
    let set = with_bytes-HasQuota v bytes w.db.users in
    let up1 = up "expiry.expireSubscription" w.log in
    let up2 = up "expiry.resetQuota" l1 in
    (ground (arith, up1, up2, none_left), ground (arith, up1, up2, set))

expire_one-keeps :
    (u v bytes : ℕ) (x : Ext) (w : World)
    → ((name : String) (l : Log) → x.fails (sql name ∷ l) ≡ false)
    → Ended v bytes w.db
    → Ended v bytes (expire_one (u, bytes) x w).1.db
unfolding expire_one
expire_one-keeps u v bytes x w up ended =
    let l1 : Log = sql "expiry.expireSubscription" ∷ w.log in
    let none_left = expire_rows-keeps u v (x.clock l1) w.db.subscriptions ended.0 in
    let set = with_bytes-keeps u v bytes w.db.users ended.1 in
    let up1 = up "expiry.expireSubscription" w.log in
    let up2 = up "expiry.resetQuota" l1 in
    (ground (arith, up1, up2, none_left), ground (arith, up1, up2, set))

abbrev entries : ℕ → List Subscription → List (ℕ × ℕ)
entries bytes = map (λ (s : Subscription). (s.user_id, bytes))

pass-keeps :
    (v bytes : ℕ) (ss : List Subscription) (x : Ext) (w : World)
    → ((name : String) (l : Log) → x.fails (sql name ∷ l) ≡ false)
    → Ended v bytes w.db
    → Ended v bytes (for_each expire_one (entries bytes ss) x w).1.db
unfolding for_each
pass-keeps v bytes [] x w up ended = ended
pass-keeps v bytes (s ∷ ss) x w up ended =
    pass-keeps v bytes ss x (expire_one (s.user_id, bytes) x w).1 up
      (expire_one-keeps s.user_id v bytes x w up ended)

pass-Ended :
    (v bytes : ℕ) (p : Subscription → Bool) (ss : List Subscription) (x : Ext) (w : World)
    → ((name : String) (l : Log) → x.fails (sql name ∷ l) ≡ false)
    → any_by (λ (s : Subscription). s.user_id == v && p s) ss ≡ true
    → Ended v bytes (for_each expire_one (entries bytes (select_by p ss)) x w).1.db
unfolding for_each any_by select_by
pass-Ended v bytes p [] x w up h = cc
pass-Ended v bytes p (s ∷ ss) x w up h = elim (Bool-cases (p s)) [
  | inr e ↦ rw e (pass-Ended v bytes p ss x w up (ground (arith, e)))
  | inl e ↦ rw e (elim (Bool-cases (s.user_id == v)) [
    | inl same ↦ pass-keeps v bytes (select_by p ss) x (expire_one (s.user_id, bytes) x w).1 up (
        subst (λ n. Ended v bytes (expire_one (n, bytes) x w).1.db)
          (sym ((==_iff s.user_id v).0 same)) (expire_one-own v bytes x w up))
    | inr other ↦
        pass-Ended v bytes p ss x (expire_one (s.user_id, bytes) x w).1 up
          (ground (arith, e, other))
  ])
]

-- Where no statement fails and the free plan exists, every user who has an active subscription that
-- is over when the pass reads the clock ends without an active subscription, and with the quota of
-- the free plan.
pub expire_ends_overdue :
    (v : ℕ) (x : Ext) (w : World) {free : Plan}
    → ((name : String) (l : Log) → x.fails (sql name ∷ l) ≡ false)
    → find_plan_by_slug w.db "free" ≡ some free
    → any_by
        (λ (s : Subscription).
          s.user_id == v && is_overdue (x.clock (sql "expiry.expireSubscriptions" ∷ w.log)) s)
        w.db.subscriptions
      ≡ true
    → Ended v free.storage_bytes (expire_subscriptions x w).1.db
unfolding expire_subscriptions expired_subs
expire_ends_overdue v x w {free = free} up f h =
    let l : Log = sql "expiry.expireSubscriptions" ∷ w.log in
    let w1 : World = record { db = w.db; log = l } in
    let es = entries free.storage_bytes (select_by (is_overdue (x.clock l)) w.db.subscriptions) in
    let same : (expire_subscriptions x w).1.db ≡ (for_each expire_one es x w1).1.db =
      ground (arith, up "expiry.expireSubscriptions" w.log, f) in
    subst (λ db. Ended v free.storage_bytes db) (sym same)
      (pass-Ended v free.storage_bytes (is_overdue (x.clock l)) w.db.subscriptions x w1 up h)
