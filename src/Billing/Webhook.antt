-- ===== src/Billing/Webhook.antt =====
-- internal/billing/service.go: the events that the gateways send. `HandleWebhook` (Adullam) and
-- `HandleSaspayWebhook` differ in the provider, and in the test of the status before.
use nexium_storage_back.Shared.{String, none, some, ◌=s=◌, if◌then◌else◌}
use nexium_storage_back.World.{Action, Remote, pure, ◌>>=◌, ◌>>◌}
use nexium_storage_back.Billing.Store.{
  PaymentInfo, AddonInfo, get_payment_by_gateway_id, get_addon_by_gateway_id, update_payment_status,
  update_addon_status,
}
use nexium_storage_back.Billing.Subscriptions.{Service, activate_subscription}
use nexium_storage_back.Billing.Addons.{activate_addon}

unfoldable pub complete_payment : Service → PaymentInfo → String → Action (Unit {0})
complete_payment s p gid = if p.row.status =s= "completed" then pure tt else (do
  update_payment_status p.row.id "completed" gid
  activate_subscription s p.row.user_id p.plan)

unfoldable pub complete_addon : Service → AddonInfo → String → Action (Unit {0})
complete_addon s a gid = if a.row.status =s= "completed" then pure tt else (do
  update_addon_status a.row.id "completed" gid
  activate_addon s (record (a.row) { status = "completed" }))

unfoldable pub handle_completed : Service → String → String → Action (Unit {0})
handle_completed s provider gid = do
  payment ← get_payment_by_gateway_id gid provider
  elim payment [
    | some p ↦ complete_payment s p gid
    | none ↦ (do
      addon ← get_addon_by_gateway_id gid provider
      elim addon [ some a ↦ complete_addon s a gid | none ↦ pure tt ])
  ]

unfoldable pub handle_webhook : Service → Remote → Action (Unit {0})
handle_webhook s payment =
    if payment.status =s= "completed" then handle_completed s "adullam" payment.id else pure tt

unfoldable pub handle_saspay_webhook : Service → String → Action (Unit {0})
handle_saspay_webhook s gid = handle_completed s "saspay" gid
