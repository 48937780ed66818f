-- ===== src/Http/Events.antt =====
-- internal/billing/handler.go: the events that the payment gateways post, and the page of payments.
use nexium_storage_back.Shared.{
  ℕ, Bool, not, ◌&&◌, ◌||◌, String, Option, none, some, List, [], ◌∷◌, ◌=s=◌, ltb, leb,
  if◌then◌else◌, Result, ok, err,
}
use nexium_storage_back.World.{BillingPayment, Action, Remote, pure, attempt, ◌>>=◌}
use nexium_storage_back.Billing.{Service, handle_webhook, handle_saspay_webhook, list_user_payments}
use nexium_storage_back.Middleware.{Context}
use nexium_storage_back.Http.Files.{user_of}
use nexium_storage_back.Http.Signatures.{verify_signature}

-- The handler, with what encoding/json and HMAC make of a body.
pub record Handler : Type 0 where
  pub service : Service
  pub webhook_secret : String
  pub saspay_webhook_secret : String
  pub hmac_hex : String → String → String
  -- the name and the data of an event, and the payment or its identifier in the data
  pub event_of : String → Option (String × String)
  pub payment_of : String → Option Remote
  pub saspay_event_of : String → Option (String × String)
  pub saspay_id_of : String → Option String

-- The status of the response.
abbrev status_of : Result (Unit {0}) → ℕ
status_of (ok a) = 200
status_of (err e) = 500

abbrev answer {ℓ} : {A : Type ℓ} → (A → Action (Unit {0})) → Option A → Action ℕ
answer f none = pure 400
answer f (some a) = do r ← attempt (f a); pure (status_of r)

abbrev on_event : Handler → Option (String × String) → Action ℕ
on_event h none = pure 400
on_event h (some e) =
    if e.0 =s= "payment" then answer (handle_webhook h.service) (h.payment_of e.1) else pure 200

-- A body that cannot be read is none.
unfoldable pub webhook : Handler → Option String → String → Action ℕ
webhook h none signature = pure 400
webhook h (some body) signature =
    if h.webhook_secret =s= "" || not (verify_signature h.hmac_hex body signature h.webhook_secret)
    then pure 401
    else on_event h (h.event_of body)

abbrev on_saspay_event : Handler → Option (String × String) → Action ℕ
on_saspay_event h none = pure 400
on_saspay_event h (some e) =
    if e.0 =s= "transaction.success" || e.0 =s= "payment.success"
    then answer (handle_saspay_webhook h.service) (h.saspay_id_of e.1)
    else pure 200

-- The headers X-SasPay-Signature and X-Signature.
abbrev pub signature_in : String → String → String
signature_in first second = if first =s= "" then second else first

unfoldable pub saspay_webhook : Handler → Option String → String → String → Action ℕ
saspay_webhook h none first second = pure 400
saspay_webhook h (some body) first second =
    if not (h.saspay_webhook_secret =s= "")
      && not (verify_signature h.hmac_hex body (signature_in first second) h.saspay_webhook_secret)
    then pure 401
    else on_saspay_event h (h.saspay_event_of body)

-- A number from 1 to 100, or 10.
abbrev limit_of : Option ℕ → ℕ
limit_of none = 10
limit_of (some n) = if ltb 0 n && leb n 100 then n else 10

pub record PaymentsPage : Type 0 where
  pub payments : List BillingPayment
  pub has_more : Bool
  -- the time of the last payment
  pub next_cursor : Option ℕ

abbrev last_time : List BillingPayment → Option ℕ
last_time [] = none
last_time (p ∷ []) = some p.created_at
last_time (p ∷ (q ∷ ps)) = last_time (q ∷ ps)

-- What is no number or no time in the query is none.
unfoldable list_payments_route : Handler → Context → Option ℕ → Option ℕ → Action PaymentsPage
list_payments_route h c limit cursor = do
  user_id ← user_of c
  found ← list_user_payments user_id (limit_of limit) cursor
  pure (record {
    payments = found.0;
    has_more = found.1;
    next_cursor = if found.1 then last_time found.0 else none;
  })
