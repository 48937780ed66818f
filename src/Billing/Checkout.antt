-- ===== src/Billing/Checkout.antt =====
-- internal/billing/service.go: checkout of a plan, and the status of its payment.
use nexium_storage_back.Shared.{
  ℕ, not, ◌&&◌, ◌||◌, String, Option, none, some, ◌=s=◌, ◌==◌, if◌then◌else◌, api, infra, Result,
  ok, err, bad_request, not_found,
}
use nexium_storage_back.World.{
  Plan, BillingPayment, Remote, gateway_create, gateway_get, Action, pure, raise, attempt, when,
  ignore, ◌>>=◌, ◌>>◌, raise_if, ask, new_uuid,
}
use nexium_storage_back.Billing.Store.{
  PaymentInfo, gateway_id, null_if_empty, get_plan_by_id, get_channel_info, create_payment,
  get_payment, update_payment_status, set_payment_redirect_url,
}
use nexium_storage_back.Billing.Gateway.{normalise_upper, is_terminal}
use nexium_storage_back.Billing.Subscriptions.{Service, activate_subscription}

pub record CheckoutRequest : Type 0 where
  pub plan_id : String
  pub channel : String
  pub phone : String
  pub country_code : String

abbrev pub country_or_default : String → String
country_or_default code = if code =s= "" then "CI" else code

abbrev pub parse_uuid : String → Action (Option ℕ)
parse_uuid text x w = (ok (x.parse_uuid text), w)

-- `if err != nil || plan == nil`
abbrev found_plan : Result (Option Plan) → Action Plan
found_plan (ok (some p)) = pure p
found_plan (ok none) = raise (bad_request "plan not found")
found_plan (err e) = raise (bad_request "plan not found")

abbrev pub parsed : Option ℕ → Action ℕ
parsed none = raise (bad_request "invalid plan_id")
parsed (some id) = pure id

-- The status in which a gateway's answer is stored: SasPay's is normalised, Adullam's is kept.
abbrev pub stored_status : Service → String → String → String
stored_status s provider status =
    if provider =s= "adullam" then status else normalise_upper (s.to_upper status)

-- Both gateways: `CreatePayment`, and the update of the record by the answer. SasPay also needs the
-- user's name and address.
unfoldable pub customer : Service → String → ℕ → Action (Unit {0})
customer s provider user_id = if provider =s= "adullam" then pure tt else (do
  info ← attempt (s.get_user_info user_id)
  elim info [ ok _ ↦ pure tt | err e ↦ raise infra ])

unfoldable pub charge : Service → BillingPayment → Plan → Action PaymentInfo
charge s p plan = do
  customer s p.provider p.user_id
  answer ← attempt (ask (λ x l. x.remote l) (gateway_create p.provider p.id p.amount_xof))
  elim answer [
    | err e ↦ (do
      ignore (update_payment_status p.id "failed" "")
      raise (api 502 "payment gateway error"))
    | ok remote ↦ (do
      ignore (update_payment_status p.id (stored_status s p.provider remote.status) remote.id)
      when (not (remote.redirect_url =s= ""))
          (ignore (set_payment_redirect_url p.id remote.redirect_url))
      pure (record {
        row = record p {
          adullam_id = null_if_empty remote.id;
          status = stored_status s p.provider remote.status;
          redirect_url = null_if_empty remote.redirect_url;
        };
        plan = plan;
        failure_reason = "";
      }))
  ]

abbrev new_payment : ℕ → ℕ → Plan → CheckoutRequest → String → BillingPayment
new_payment id user_id plan req provider = record {
  id = id;
  user_id = user_id;
  plan_id = plan.id;
  adullam_id = none;
  amount_xof = plan.price_xof;
  fee_xof = 0;
  status = "pending";
  channel = req.channel;
  phone = req.phone;
  redirect_url = none;
  provider = provider;
  country_code = country_or_default req.country_code;
  created_at = 0;
}

-- `created_at` is set by the statement.
unfoldable pub create_and_charge :
    Service → ℕ → Plan → CheckoutRequest → String → Action PaymentInfo
create_and_charge s user_id plan req provider = do
  id ← new_uuid
  create_payment (new_payment id user_id plan req provider)
  charge s (new_payment id user_id plan req provider) plan

unfoldable pub initiate_checkout : Service → ℕ → CheckoutRequest → Action PaymentInfo
initiate_checkout s user_id req = do
  plan_id ← parse_uuid req.plan_id
  id ← parsed plan_id
  answer ← attempt (get_plan_by_id id)
  plan ← found_plan answer
  raise_if (plan.price_xof == 0) (bad_request "free plan requires no payment")
  channel ← get_channel_info req.channel
  raise_if (not (channel.0)) (bad_request "canal de paiement invalide ou indisponible")
  raise_if (req.phone =s= "") (bad_request "phone is required")
  create_and_charge s user_id plan req channel.1

-- The provider that is polled: every one but "saspay" counts as Adullam.
abbrev pub polled_status : Service → String → String → String
polled_status s provider status =
    if provider =s= "saspay" then normalise_upper (s.to_upper status) else status

abbrev pub reason_of : String → Remote → String → String
reason_of status remote old =
    if status =s= "failed" && not (remote.failure_reason =s= "") then remote.failure_reason else old

-- The answer of the gateway is taken over, and a completed payment activates the plan.
unfoldable pub apply_answer : Service → PaymentInfo → Remote → Action PaymentInfo
apply_answer s p remote =
    let status = polled_status s p.row.provider remote.status in
    let p' : PaymentInfo = record p {
      row = record (p.row) { status = status };
      failure_reason = reason_of status remote p.failure_reason;
    } in
    (do
      when (not (status =s= p.row.status))
          (ignore (update_payment_status p.row.id status remote.id))
      when (status =s= "completed") (activate_subscription s p.row.user_id p.plan)
      pure p')

unfoldable pub poll_payment : Service → PaymentInfo → Action PaymentInfo
poll_payment s p = do
  answer ←
      attempt (ask (λ x l. x.remote l) (gateway_get p.row.provider (gateway_id p.row.adullam_id)))
  elim answer [ err e ↦ pure p | ok remote ↦ apply_answer s p remote ]

unfoldable pub get_payment_status : Service → ℕ → ℕ → Action PaymentInfo
get_payment_status s user_id payment_id = do
  found ← get_payment payment_id
  elim found [
    | none ↦ raise not_found
    | some p ↦
        if not (p.row.user_id == user_id)
        then raise not_found
        else if is_terminal p.row.status || gateway_id p.row.adullam_id =s= ""
        then pure p
        else poll_payment s p
  ]
