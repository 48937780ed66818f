-- ===== src/Examples/Payments.antt =====
-- Billing: payments and subscriptions, at a concrete database.
use nexium_storage_back.Billing.{Service as BillingService}
use nexium_storage_back.Shared.{
  Bool, String, any_by, err, false, find_by, infra, none, refl, select_by, some, ◌=s=◌, ◌∷◌, [],
  ◌≡◌,
}
use nexium_storage_back.World.{Ext, Log, Subscription, clock_read, sql}
use nexium_storage_back.Billing.{
  activate_subscription, find_payment_by_gateway_id, find_plan, handle_completed, join_plan,
  list_user_payments, start_mail, sum_completed_addon_bytes, upsert_subscription,
}
use nexium_storage_back.Billing.Laws.{subscription_of}
use nexium_storage_back.Billing.Activation.{activate_grants, with_activated_quota}
use nexium_storage_back.Billing.Replay.{activation_lost, replay_keeps}
use nexium_storage_back.Billing.Payments.{list_payments_fails}
use nexium_storage_back.Calendar.{add_month}
use nexium_storage_back.Server.{billing_service, set_storage_quota}
use nexium_storage_back.Server.Laws.{billing_service-ServiceLaws}
use nexium_storage_back.Examples.Fixtures.{fine, outside, pro, world}

abbrev upper : String → String
upper s = s

abbrev billing : BillingService
billing = billing_service false upper

-- The gateway reports the payment as completed, in capitals as SasPay does and as Adullam does.
abbrev paid : Ext
paid = outside "completed"

-- The write of the subscription fails.
abbrev is_upsert : Log → Bool
is_upsert [] = false
is_upsert (sql name ∷ l) = name =s= "billing.UpsertSubscription"
is_upsert (e ∷ l) = false

abbrev failing : Ext
failing = record paid { fails = is_upsert }

replay_keeps_example :
    let w1 = (handle_completed billing "adullam" "g1" failing world).1 in
    (handle_completed billing "adullam" "g1" fine w1).1.db ≡ w1.db
unfolding find_payment_by_gateway_id join_plan find_plan find_by any_by
replay_keeps_example =
    replay_keeps billing (billing_service-ServiceLaws false upper) "g1" "adullam" failing fine world
      refl ((refl, tt)) refl refl ((refl, refl))

activation_lost_example :
    let (r, w1) = handle_completed billing "adullam" "g1" failing world in
    let w2 = (handle_completed billing "adullam" "g1" paid w1).1 in
    (r ≡ err infra)
    × (w2.db.subscriptions ≡ world.db.subscriptions)
    × (w2.db.users ≡ world.db.users)
unfolding find_payment_by_gateway_id join_plan find_plan find_by any_by
activation_lost_example =
    activation_lost billing (billing_service-ServiceLaws false upper) "g1" "adullam" failing paid
      world refl ((refl, tt)) refl refl ((refl, refl)) refl

activate_grants_example :
    let db' = (activate_subscription billing 1 pro paid world).1.db in
    ((r : Subscription) × (subscription_of 1 db'.subscriptions ≡ some r)
      × (r.status ≡ "active")
      × (r.plan_id ≡ pro.id)
      × (r.current_period_end ≡ some (add_month (paid.clock (clock_read ∷ world.log))))
      × (r.data_grace_end ≡ none))
    × (db'
        ≡ with_activated_quota 1 pro paid world
            (record (world.db) { subscriptions = db'.subscriptions }))
unfolding activate_subscription upsert_subscription billing_service sum_completed_addon_bytes
    start_mail set_storage_quota
activate_grants_example =
    activate_grants billing (billing_service-ServiceLaws false upper) 1 pro paid world refl

list_payments_fails_example : (list_user_payments 1 10 none fine world).0 ≡ err infra
unfolding select_by
list_payments_fails_example = list_payments_fails 1 10 none fine world ((λ e. cc))
