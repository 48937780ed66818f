-- ===== src/Billing/Replay.antt =====
-- Events that a gateway sends again (internal/billing/service.go: `HandleWebhook`,
-- `HandleSaspayWebhook`).
use text.Mathlib.TextEquality.{eq_iff}
use text.Mathlib.TextPositions.{eq_refl}
use nexium_storage_back.Shared.{
  ◌≡◌, refl, ◌∙◌, inl, inr, Bool, true, false, ◌&&◌, String, some, ◌∷◌, ◌=s=◌, err, infra, arith,
  find_by, IsKeyed, find_by_sound, find_by-update_where-key, Option-cases,
}
use nexium_storage_back.World.{BillingPayment, Db, Ext, World, Log, clock_read, sql}
use nexium_storage_back.Billing.Store.{
  PaymentInfo, null_if_empty, has_gateway_id, find_plan, join_plan, find_payment_by_gateway_id,
  get_payment_by_gateway_id, set_payment_status, update_payment_status, upsert_subscription,
}
use nexium_storage_back.Billing.Subscriptions.{Service, activate_subscription}
use nexium_storage_back.Billing.Webhook.{complete_payment, handle_completed}
use nexium_storage_back.Billing.Laws.{ServiceLaws}
use nexium_storage_back.Billing.Activation.{activate-Activated}

-- The payment that an event of the gateway is about.
abbrev is_about : String → String → BillingPayment → Bool
is_about gid provider p = has_gateway_id p.adullam_id gid && p.provider =s= provider

abbrev completed : String → BillingPayment → BillingPayment
completed gid p = record p { status = "completed"; adullam_id = null_if_empty gid }

is_about-completed :
    (gid provider : String) (p : BillingPayment)
    → (gid =s= "") ≡ false
    → is_about gid provider p ≡ true
    → is_about gid provider (completed gid p) ≡ true
is_about-completed gid provider p nonempty h = ground (arith, eq_refl gid)

-- The tables once the payment that the event is about is recorded as completed.
abbrev pub recorded : Db → PaymentInfo → String → Db
recorded db p gid = record db {
  billing_payments = set_payment_status p.row.id "completed" gid db.billing_payments;
}

recorded_is_found :
    (gid provider : String) (db : Db) {p : PaymentInfo}
    → (gid =s= "") ≡ false
    → IsKeyed (λ (p : BillingPayment). p.id) db.billing_payments
    → find_payment_by_gateway_id db gid provider ≡ some p
    → find_payment_by_gateway_id (recorded db p gid) gid provider
      ≡ some (record p { row = completed gid p.row })
unfolding find_payment_by_gateway_id join_plan find_plan set_payment_status
recorded_is_found gid provider db {p = p} nonempty keyed h =
    elim (Option-cases (find_by (is_about gid provider) db.billing_payments)) [
      | inl e ↦ absurd (ground (arith, e))
      | inr (r, e) ↦
          let kept = is_about-completed gid provider r nonempty (find_by_sound _ _ e) in
          let found =
            find_by-update_where-key (λ (q : BillingPayment). q.id) (is_about gid provider)
              (completed gid) db.billing_payments keyed e kept in
          ground (arith, e, found)
    ]

-- The two statements that come before the activation have succeeded.
abbrev pub Recorded : Ext → World → Type 0
Recorded x w =
    let l1 : Log = sql "billing.GetPaymentByGatewayID" ∷ w.log in
    (x.fails l1 ≡ false) × (x.fails (sql "billing.UpdatePaymentStatus" ∷ l1) ≡ false)

module _ (s : Service) (laws : ServiceLaws s) where
  -- An event about a payment that is recorded as completed changes nothing.
  handled_already :
      (gid provider : String) (x : Ext) (w : World) {p : PaymentInfo}
      → find_payment_by_gateway_id w.db gid provider ≡ some p
      → p.row.status ≡ "completed"
      → (handle_completed s provider gid x w).1.db ≡ w.db
  unfolding handle_completed get_payment_by_gateway_id complete_payment
  handled_already gid provider x w {p = p} h e = ground (arith, eq_iff p.row.status "completed")

  find_payment-congr :
      (gid provider : String) (db db' : Db)
      → db'.billing_payments ≡ db.billing_payments
      → db'.plans ≡ db.plans
      → find_payment_by_gateway_id db' gid provider ≡ find_payment_by_gateway_id db gid provider
  unfolding find_payment_by_gateway_id join_plan find_plan
  find_payment-congr gid provider db db' h e = rw (h, e)

  -- However the activation ends, the payments are those with the payment recorded as completed.
  pub event_records :
      (gid provider : String) (x : Ext) (w : World) {p : PaymentInfo}
      → find_payment_by_gateway_id w.db gid provider ≡ some p
      → (p.row.status =s= "completed") ≡ false
      → Recorded x w
      → let db' = (handle_completed s provider gid x w).1.db in
        (db'.billing_payments ≡ (recorded w.db p gid).billing_payments) × (db'.plans ≡ w.db.plans)
  unfolding handle_completed get_payment_by_gateway_id complete_payment update_payment_status
  event_records gid provider x w {p = p} h open_ rec =
      let l2 : Log =
        sql "billing.UpdatePaymentStatus" ∷ sql "billing.GetPaymentByGatewayID" ∷ w.log in
      let w2 : World = record { db = recorded w.db p gid; log = l2 } in
      ground (arith, activate-Activated s laws p.row.user_id p.plan x w2)

  -- Once a completed payment is recorded, the same event changes nothing when it comes again,
  -- whatever happened to the activation the first time: no period is granted twice.
  pub replay_keeps :
      (gid provider : String) (x x' : Ext) (w : World) {p : PaymentInfo}
      → (gid =s= "") ≡ false
      → IsKeyed (λ (q : BillingPayment). q.id) w.db.billing_payments
      → find_payment_by_gateway_id w.db gid provider ≡ some p
      → (p.row.status =s= "completed") ≡ false
      → Recorded x w
      → let w1 = (handle_completed s provider gid x w).1 in
        (handle_completed s provider gid x' w1).1.db ≡ w1.db
  replay_keeps gid provider x x' w {p = p} nonempty keyed h open_ rec =
      let w1 = (handle_completed s provider gid x w).1 in
      let same = event_records gid provider x w {p = p} h open_ rec in
      let found =
        find_payment-congr gid provider (recorded w.db p gid) w1.db same.0 same.1
        ∙ recorded_is_found gid provider w.db nonempty keyed h in
      handled_already gid provider x' w1 found refl

  -- A payment that the gateway has taken, where the status is recorded and the write of the
  -- subscription fails: the event ends in an error, no subscription and no quota is written, and
  -- the same event, sent again, does not write them either.
  pub activation_lost :
      (gid provider : String) (x x' : Ext) (w : World) {p : PaymentInfo}
      → (gid =s= "") ≡ false
      → IsKeyed (λ (q : BillingPayment). q.id) w.db.billing_payments
      → find_payment_by_gateway_id w.db gid provider ≡ some p
      → (p.row.status =s= "completed") ≡ false
      → Recorded x w
      → x.fails (
          sql "billing.UpsertSubscription"
          ∷ clock_read
          ∷ sql "billing.UpdatePaymentStatus"
          ∷ sql "billing.GetPaymentByGatewayID"
          ∷ w.log)
        ≡ true
      → let (r, w1) = handle_completed s provider gid x w in
        let w2 = (handle_completed s provider gid x' w1).1 in
        (r ≡ err infra) × (w2.db.subscriptions ≡ w.db.subscriptions) × (w2.db.users ≡ w.db.users)
  unfolding handle_completed get_payment_by_gateway_id complete_payment update_payment_status
      activate_subscription upsert_subscription
  activation_lost gid provider x x' w {p = p} nonempty keyed h open_ rec lost =
      let again = replay_keeps gid provider x x' w {p = p} nonempty keyed h open_ rec in
      (ground arith, rw again (ground arith), rw again (ground arith))
