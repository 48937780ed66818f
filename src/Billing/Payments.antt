-- ===== src/Billing/Payments.antt =====
-- Checkout, the status of a payment, the list of payments, and add-ons (internal/billing/service.go
-- and store.go).
use native.Mathlib.Numerals.{add-one}
use nexium_storage_back.Shared.{
  ℕ, ◌+◌, ◌≡◌, refl, ◌⊎◌, inl, inr, ◌≢◌, Bool, true, false, ◌&&◌, String, Option, none, some, List,
  [], ◌∷◌, ◌==◌, ◌=s=◌, add_int64, Result, ok, err, infra, not_found, Yields, arith, select_by,
  take, Option-cases,
}
use nexium_storage_back.World.{
  Plan, Subscription, BillingPayment, StorageAddon, Db, Ext, World, Log, sql, gateway_get,
}
use nexium_storage_back.Billing.Store.{
  PaymentInfo, find_payment, get_payment, update_payment_status, set_payment_redirect_url,
  create_payment, get_plan_by_id, get_channel_info, list_user_payments, scan_rows, payment_columns,
  list_destinations, find_plan, before_cursor, insert_newest_payment, newest_payments,
  find_subscription, get_subscription_row, completed_addon_bytes, sum_completed_addon_bytes,
  gateway_id,
}
use nexium_storage_back.Billing.Gateway.{is_terminal, normalise_upper}
use nexium_storage_back.Billing.Subscriptions.{Service, start_mail}
use nexium_storage_back.Billing.Checkout.{
  CheckoutRequest, initiate_checkout, create_and_charge, charge, customer, get_payment_status,
  poll_payment, apply_answer, polled_status,
}
use nexium_storage_back.Billing.Addons.{activate_addon, base_bytes}
use nexium_storage_back.Billing.Laws.{ServiceLaws, with_quota}

-- Every status that SasPay's is normalised to is one of the five of the model's comment.
normalise_upper_range :
    (s : String)
    → (normalise_upper s ≡ "completed")
      ⊎ (normalise_upper s ≡ "failed")
      ⊎ (normalise_upper s ≡ "expired")
      ⊎ (normalise_upper s ≡ "processing")
      ⊎ (normalise_upper s ≡ "pending")
unfolding normalise_upper
normalise_upper_range s = ground arith

-- The payments that a listing selects.
abbrev listed : Db → ℕ → Option ℕ → List BillingPayment
listed db u cursor =
    select_by (λ (p : BillingPayment). p.user_id == u && before_cursor cursor p.created_at)
      db.billing_payments

insert_newest-ne-nil :
    (p : BillingPayment) (ps : List BillingPayment) → insert_newest_payment p ps ≢ []
unfolding insert_newest_payment
insert_newest-ne-nil p [] = cc
insert_newest-ne-nil p (q ∷ qs) = ground arith

newest_payments-ne-nil : (ps : List BillingPayment) → ps ≢ [] → newest_payments ps ≢ []
unfolding newest_payments
newest_payments-ne-nil [] h = absurd (h refl)
newest_payments-ne-nil (p ∷ ps) h = insert_newest-ne-nil p (newest_payments ps)

take-ne-nil : (n : ℕ) (ps : List BillingPayment) → ps ≢ [] → take (n + 1) ps ≢ []
take-ne-nil n [] h = absurd (h refl)
take-ne-nil n (p ∷ ps) h = rw add-one cc

scan_rows-err :
    (ps : List BillingPayment) (x : Ext) (w : World)
    → ps ≢ []
    → scan_rows payment_columns list_destinations ps x w ≡ (err infra, w)
unfolding scan_rows
scan_rows-err [] x w h = absurd (h refl)
scan_rows-err (p ∷ ps) x w h = refl

-- A user who has a payment cannot list the payments: the list always ends in an error, since the
-- statement has a column more than the row has destinations.
pub list_payments_fails :
    (u limit : ℕ) (cursor : Option ℕ) (x : Ext) (w : World)
    → listed w.db u cursor ≢ []
    → (list_user_payments u limit cursor x w).0 ≡ err infra
unfolding list_user_payments
list_payments_fails u limit cursor x w h =
    let rows = take (limit + 1) (newest_payments (listed w.db u cursor)) in
    let some_row =
      take-ne-nil limit (newest_payments (listed w.db u cursor)) (newest_payments-ne-nil _ h) in
    let w1 : World = record { db = w.db; log = sql "billing.ListUserPayments" ∷ w.log } in
    ground (arith, scan_rows-err rows x w1 some_row)

abbrev OnlyPayments : Db → Db → Type 0
OnlyPayments db db' = db' ≡ record db { billing_payments = db'.billing_payments }

-- What a charge that returns has charged.
abbrev IsCharge : ℕ → Plan → Result PaymentInfo → Type 0
IsCharge u plan =
    Yields (λ i. (i.plan ≡ plan) × (i.row.user_id ≡ u) × (i.row.amount_xof ≡ plan.price_xof))

module _ (s : Service) (laws : ServiceLaws s) where
  open laws use {set_quota_writes, get_user_info_reads}

  charge-OnlyPayments :
      (p : BillingPayment) (plan : Plan) (x : Ext) (w : World)
      → OnlyPayments w.db (charge s p plan x w).1.db
  unfolding charge customer update_payment_status set_payment_redirect_url
  charge-OnlyPayments p plan x w = ground (arith, get_user_info_reads p.user_id x w)

  create_and_charge-OnlyPayments :
      (u : ℕ) (plan : Plan) (req : CheckoutRequest) (provider : String) (x : Ext) (w : World)
      → OnlyPayments w.db (create_and_charge s u plan req provider x w).1.db
  unfolding create_and_charge create_payment
  create_and_charge-OnlyPayments u plan req provider x w = grind (arith, charge-OnlyPayments)

  -- A checkout writes no table but that of the payments, on every branch: nothing is granted before
  -- a gateway reports the payment as completed.
  checkout_grants_nothing :
      (u : ℕ) (req : CheckoutRequest) (x : Ext) (w : World)
      → OnlyPayments w.db (initiate_checkout s u req x w).1.db
  unfolding initiate_checkout get_plan_by_id get_channel_info
  checkout_grants_nothing u req x w = grind (arith, create_and_charge-OnlyPayments)

  create_and_charge-IsCharge :
      (u : ℕ) (plan : Plan) (req : CheckoutRequest) (provider : String) (x : Ext) (w : World)
      → IsCharge u plan (create_and_charge s u plan req provider x w).0
  unfolding create_and_charge charge
  create_and_charge-IsCharge u plan req provider x w = ground arith

  -- A checkout that returns is of a plan of the table that costs something, and asks its price.
  checkout_price :
      (u : ℕ) (req : CheckoutRequest) (x : Ext) (w : World) {p : PaymentInfo}
      → (initiate_checkout s u req x w).0 ≡ ok p
      → (p.row.user_id ≡ u)
        × (p.row.amount_xof ≡ p.plan.price_xof)
        × (p.plan.price_xof ≢ 0)
        × ((id : ℕ) × (x.parse_uuid req.plan_id ≡ some id) × (find_plan w.db id ≡ some p.plan))
  unfolding initiate_checkout get_plan_by_id get_channel_info
  checkout_price u req x w {p = p} h = elim (Option-cases (x.parse_uuid req.plan_id)) [
    | inl bad ↦ absurd (ground (arith, bad))
    | inr (id, e) ↦ elim (Option-cases (find_plan w.db id)) [
      | inl missing ↦ absurd (ground (arith, e, missing))
      | inr (plan, f) ↦
          let l1 : Log = sql "billing.GetPlanByID" ∷ w.log in
          let l2 : Log = sql "billing.GetChannelInfo" ∷ l1 in
          let w2 : World = record { db = w.db; log = l2 } in
          let channel = get_channel_info req.channel x (record { db = w.db; log = l1 }) in
          let provider : String = elim channel.0 [ ok c ↦ c.1 | err _ ↦ "" ] in
          let charged = create_and_charge-IsCharge u plan req provider x w2 in
          (
            ground (arith, e, f, charged),
            ground (arith, e, f, charged),
            ground (arith, e, f, charged),
            (id, e, ground (arith, e, f, charged)),
          )
    ]
  ]

  -- The payment of another user, or of an unknown id, is not shown: the call ends in an error,
  -- writes nothing and asks no gateway.
  foreign_payment_refused :
      (u id : ℕ) (x : Ext) (w : World)
      → (elim (find_payment w.db id) as (λ _. Bool) [ none ↦ false | some p ↦ p.row.user_id == u ]
          ≡ false)
      → let (r, w') = get_payment_status s u id x w in
        ((r ≡ err not_found) ⊎ (r ≡ err infra))
        × (w'.db ≡ w.db)
        × (w'.log ≡ sql "billing.GetPayment" ∷ w.log)
  unfolding get_payment_status get_payment
  foreign_payment_refused u id x w h = ground arith

  -- A payment that is completed, failed or expired is answered from the table: the gateway is not
  -- asked and nothing is written.
  terminal_not_polled :
      (u id : ℕ) (x : Ext) (w : World) {p : PaymentInfo}
      → find_payment w.db id ≡ some p
      → p.row.user_id ≡ u
      → is_terminal p.row.status ≡ true
      → x.fails (sql "billing.GetPayment" ∷ w.log) ≡ false
      → get_payment_status s u id x w
        ≡ (ok p, record { db = w.db; log = sql "billing.GetPayment" ∷ w.log })
  unfolding get_payment_status get_payment
  terminal_not_polled u id x w h e t f = ground arith

  -- Polling a payment grants the plan only if the gateway's answer is a completed payment: for any
  -- other answer, and where the gateway cannot be reached, only the payments change.
  pub poll_grants_only_completed :
      (u id : ℕ) (x : Ext) (w : World) {p : PaymentInfo}
      → find_payment w.db id ≡ some p
      → (polled_status s p.row.provider
            (x.remote (
              gateway_get p.row.provider (gateway_id p.row.adullam_id)
              ∷ sql "billing.GetPayment"
              ∷ w.log)).status
          =s= "completed")
        ≡ false
      → let db' = (get_payment_status s u id x w).1.db in
        db' ≡ record (w.db) { billing_payments = db'.billing_payments }
  unfolding get_payment_status get_payment poll_payment apply_answer update_payment_status
  poll_grants_only_completed u id x w h n = ground arith

  -- An add-on that is activated sets the quota to the bytes of the plan of the user's subscription,
  -- active or not, and of all completed add-ons.
  activate_addon_quota :
      (a : StorageAddon) (x : Ext) (w : World) {sub : Subscription} {plan : Plan}
      → find_subscription w.db a.user_id ≡ some (sub, plan)
      → (activate_addon s a x w).0 ≡ ok tt
      → (activate_addon s a x w).1.db ≡ record (w.db) {
        users =
            with_quota a.user_id
              (some (add_int64 plan.storage_bytes (completed_addon_bytes w.db a.user_id)))
              w.db.users;
      }
  unfolding activate_addon get_subscription_row base_bytes sum_completed_addon_bytes start_mail
  activate_addon_quota a x w {plan = plan} h e =
      let l2 : Log = sql "billing.SumCompletedAddonBytes" ∷ sql "billing.GetSubscription" ∷ w.log in
      ground (
        arith,
        set_quota_writes a.user_id
            (some (add_int64 plan.storage_bytes (completed_addon_bytes w.db a.user_id))) x
            (record { db = w.db; log = l2 }),
      )
