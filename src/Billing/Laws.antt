-- ===== src/Billing/Laws.antt =====
-- What billing asks of the functions that are injected into it, and what its statements do to the
-- table of subscriptions.
use nexium_storage_back.Shared.{
  ℕ, ◌≡◌, refl, String, Option, none, some, List, ◌==◌, ℤ, Result, ok, err, arith, find_by,
  update_where, any_by-find_by, find_by-update_where,
}
use nexium_storage_back.World.{User, Subscription, Db, Ext, World}
use nexium_storage_back.Billing.Store.{renewed, new_subscription, upsert_rows}
use nexium_storage_back.Billing.Subscriptions.{Service}

-- The table `users` after `UPDATE users SET storage_quota_bytes = $2 WHERE id = $1`.
unfoldable pub with_quota : ℕ → Option ℤ → List User → List User
with_quota id quota =
    update_where (λ (u : User). u.id == id) (λ u. record u { storage_quota_bytes = quota })

-- The action has changed the tables by `f`, or it has ended in an error and changed nothing.
abbrev Writes {ℓ} : {A : Type ℓ} → (Db → Db) → Db → Result A → Db → Type 0
Writes f db (ok _) db' = db' ≡ f db
Writes f db (err _) db' = db' ≡ db

pub record ServiceLaws (s : Service) : Type 0 where
  pub set_quota_writes :
      (u : ℕ) (q : Option ℤ) (x : Ext) (w : World)
      → let (r, w') = s.set_quota u q x w in
        Writes (λ db. record db { users = with_quota u q db.users }) w.db r w'.db
  pub get_user_info_reads : (u : ℕ) (x : Ext) (w : World) → (s.get_user_info u x w).1.db ≡ w.db

abbrev pub subscription_of : ℕ → List Subscription → Option Subscription
subscription_of u = find_by (λ (s : Subscription). s.user_id == u)

-- After the upsert the user has one row to be found: the old one renewed, or the new one.
pub subscription_of-upsert_rows :
    (u plan : ℕ) (status : String) (end : Option ℕ) (t : ℕ) (rows : List Subscription)
    → subscription_of u (upsert_rows u plan status end t rows)
      ≡ (elim (subscription_of u rows) as (λ _. Option Subscription) [
        | none ↦ some (new_subscription u plan status end t)
        | some r ↦ some (renewed plan status end t r)
      ])
unfolding upsert_rows find_by
subscription_of-upsert_rows u plan status end t rows =
    let p = λ (s : Subscription). s.user_id == u in
    ground (
      arith,
      any_by-find_by p rows,
      find_by-update_where p (renewed plan status end t) rows (λ r. refl),
    )
