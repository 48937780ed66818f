-- ===== src/Http/Gateways.antt =====
-- What the events that anyone can post to internal/billing/handler.go do.
use nexium_storage_back.Shared.{◌≡◌, true, false, String, some, ◌=s=◌, arith, ok}
use nexium_storage_back.World.{Ext, World}
use nexium_storage_back.Billing.{PaymentInfo, find_payment_by_gateway_id, handle_saspay_webhook}
use nexium_storage_back.Billing.Laws.{ServiceLaws}
use nexium_storage_back.Billing.Replay.{Recorded, recorded, event_records}
use nexium_storage_back.Http.Signatures.{verify_signature}
use nexium_storage_back.Http.Events.{Handler, webhook, saspay_webhook, signature_in}

-- An event that is not signed by the secret of its gateway is answered with a 401 and does nothing,
-- not even a statement, where a secret is configured for SasPay.
unsigned_event_does_nothing :
    (h : Handler) (body first second : String) (x : Ext) (w : World)
    → verify_signature h.hmac_hex body first h.webhook_secret ≡ false
    → verify_signature h.hmac_hex body (signature_in first second) h.saspay_webhook_secret ≡ false
    → (h.saspay_webhook_secret =s= "") ≡ false
    → (webhook h (some body) first x w ≡ (ok 401, w))
      × (saspay_webhook h (some body) first second x w ≡ (ok 401, w))
unfolding webhook saspay_webhook
unsigned_event_does_nothing h body first second x w bad bad' secret = (ground arith, ground arith)

-- Where no SasPay secret is configured, which is the default, an event that anyone posts, with any
-- signature or none, records the payment that it names as completed: the gateway is not asked.
pub saspay_without_secret :
    (h : Handler) (body first second text gid : String) (x : Ext) (w : World) {p : PaymentInfo}
    → ServiceLaws h.service
    → (h.saspay_webhook_secret =s= "") ≡ true
    → h.saspay_event_of body ≡ some ("payment.success", text)
    → h.saspay_id_of text ≡ some gid
    → find_payment_by_gateway_id w.db gid "saspay" ≡ some p
    → (p.row.status =s= "completed") ≡ false
    → Recorded x w
    → (saspay_webhook h (some body) first second x w).1.db.billing_payments
      ≡ (recorded w.db p gid).billing_payments
unfolding saspay_webhook handle_saspay_webhook
saspay_without_secret h body first second text gid x w {p = p} laws e1 e2 e3 e4 e5 rec =
    let done = event_records h.service laws gid "saspay" x w {p = p} e4 e5 rec in
    ground (arith, done)
