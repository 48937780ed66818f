-- ===== src/Billing/Store/Payments.antt =====
-- internal/billing/store.go: payments and their channels.
use nexium_storage_back.Shared.{
  ℕ, ◌+◌, Bool, true, false, ◌&&◌, String, Option, none, some, List, [], ◌∷◌, ◌==◌, ◌=s=◌, ltb,
  if◌then◌else◌, find_by, select_by, update_where, length, take, infra,
}
use nexium_storage_back.World.{
  BillingPayment, PaymentChannel, Db, Action, query, exec, raise, pure, ◌>>=◌,
}
use nexium_storage_back.Billing.Store.Plans.{PaymentInfo, null_if_empty, find_plan}

unfoldable pub create_payment : BillingPayment → Action (Unit {0})
create_payment p = exec "billing.CreatePayment" (λ t db. record db {
  billing_payments = record p { adullam_id = none; created_at = t } ∷ db.billing_payments;
})

-- `paymentSelectJoin`, `scanPayment`: the payment with its plan.
unfoldable pub join_plan : Db → Option BillingPayment → Option PaymentInfo
join_plan db none = none
join_plan db (some p) = elim (find_plan db p.plan_id) [
  | none ↦ none
  | some plan ↦ some (record { row = p; plan = plan; failure_reason = "" })
]

unfoldable pub find_payment : Db → ℕ → Option PaymentInfo
find_payment db id = join_plan db (find_by (λ (p : BillingPayment). p.id == id) db.billing_payments)

unfoldable pub get_payment : ℕ → Action (Option PaymentInfo)
get_payment id = query "billing.GetPayment" (λ _ db. find_payment db id)

abbrev pub has_gateway_id : Option String → String → Bool
has_gateway_id none id = false
has_gateway_id (some g) id = g =s= id

unfoldable pub find_payment_by_gateway_id : Db → String → String → Option PaymentInfo
find_payment_by_gateway_id db id provider = join_plan db (
    find_by (λ (p : BillingPayment). has_gateway_id p.adullam_id id && p.provider =s= provider)
      db.billing_payments)

-- `GetPaymentByAdullamID` is this with the provider "adullam".
unfoldable pub get_payment_by_gateway_id : String → String → Action (Option PaymentInfo)
get_payment_by_gateway_id id provider =
    query "billing.GetPaymentByGatewayID" (λ _ db. find_payment_by_gateway_id db id provider)

unfoldable pub set_payment_status : ℕ → String → String → List BillingPayment → List BillingPayment
set_payment_status id status gid =
    update_where (λ p. p.id == id)
      (λ p. record p { status = status; adullam_id = null_if_empty gid })

unfoldable pub update_payment_status : ℕ → String → String → Action (Unit {0})
update_payment_status id status gid =
    exec "billing.UpdatePaymentStatus" (λ _ db. record db {
      billing_payments = set_payment_status id status gid db.billing_payments;
    })

unfoldable pub set_payment_redirect_url : ℕ → String → Action (Unit {0})
set_payment_redirect_url id url = exec "billing.SetPaymentRedirectURL" (λ _ db. record db {
  billing_payments =
      update_where (λ (p : BillingPayment). p.id == id) (λ p. record p { redirect_url = some url })
        db.billing_payments;
})

unfoldable pub insert_newest_payment : BillingPayment → List BillingPayment → List BillingPayment
insert_newest_payment p [] = p ∷ []
insert_newest_payment p (q ∷ qs) =
    if ltb p.created_at q.created_at then q ∷ insert_newest_payment p qs else p ∷ q ∷ qs

unfoldable pub newest_payments : List BillingPayment → List BillingPayment
unfolding insert_newest_payment
newest_payments [] = []
newest_payments (p ∷ ps) = insert_newest_payment p (newest_payments ps)

abbrev pub before_cursor : Option ℕ → ℕ → Bool
before_cursor none t = true
before_cursor (some c) t = ltb t c

-- The columns of `paymentSelectJoin`, and the destinations of `rows.Scan` in `ListUserPayments`.
abbrev pub payment_columns : List String
payment_columns =
    "bp.id" ∷ "bp.user_id" ∷ "bp.plan_id" ∷ "bp.adullam_id" ∷ "bp.amount_xof" ∷ "bp.fee_xof"
    ∷ "bp.status" ∷ "bp.channel" ∷ "bp.phone" ∷ "bp.redirect_url" ∷ "bp.provider"
    ∷ "bp.country_code" ∷ "bp.created_at" ∷ "bp.updated_at" ∷ "pl.id" ∷ "pl.name" ∷ "pl.slug"
    ∷ "pl.storage_bytes" ∷ "pl.price_xof" ∷ "pl.max_projects" ∷ "pl.max_file_bytes"
    ∷ "pl.max_monthly_api_requests" ∷ "pl.addons_enabled" ∷ "pl.is_active" ∷ []

abbrev pub list_destinations : List String
list_destinations =
    "p.ID" ∷ "p.UserID" ∷ "p.PlanID" ∷ "p.AdullamID" ∷ "p.AmountXOF" ∷ "p.FeeXOF" ∷ "p.Status"
    ∷ "p.Channel" ∷ "p.Phone" ∷ "p.RedirectURL" ∷ "p.Provider" ∷ "p.CountryCode" ∷ "p.CreatedAt"
    ∷ "p.UpdatedAt" ∷ "plan.ID" ∷ "plan.Name" ∷ "plan.Slug" ∷ "plan.StorageBytes" ∷ "plan.PriceXOF"
    ∷ "plan.MaxProjects" ∷ "plan.MaxFileBytes" ∷ "plan.AddonsEnabled" ∷ "plan.IsActive" ∷ []

-- `rows.Scan` of github.com/jackc/pgx ends in an error where the numbers of columns and of
-- destinations differ; the loop returns it at the first row.
unfoldable pub scan_rows :
    List String → List String → List BillingPayment → Action (List BillingPayment)
scan_rows columns destinations [] = pure []
scan_rows columns destinations (p ∷ ps) =
    if length columns == length destinations then pure (p ∷ ps) else raise infra

unfoldable pub list_user_payments : ℕ → ℕ → Option ℕ → Action (List BillingPayment × Bool)
list_user_payments user_id limit cursor = do
  rows ← query "billing.ListUserPayments" (λ _ db. take (limit + 1) (
      newest_payments (
        select_by
          (λ (p : BillingPayment). p.user_id == user_id && before_cursor cursor p.created_at)
          db.billing_payments)))
  payments ← scan_rows payment_columns list_destinations rows
  pure (
    if ltb limit (length payments) then take limit payments else payments,
    ltb limit (length payments),
  )

unfoldable pub get_channel_info : String → Action (Bool × String)
get_channel_info slug = query "billing.GetChannelInfo" (λ _ db.
    elim (find_by (λ (c : PaymentChannel). c.slug =s= slug) db.payment_channels) [
      | none ↦ (false, "")
      | some c ↦ (c.is_active, c.provider)
    ])
