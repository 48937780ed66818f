-- ===== src/Http/Billing.antt =====
-- internal/billing/handler.go: the routes on plans, checkouts and storage add-ons.
use nexium_storage_back.Shared.{ℕ, Bool, true, false, Option, none, some, List, bad_request}
use nexium_storage_back.World.{Plan, Subscription, StorageAddon, Action, pure, ◌>>=◌}
use nexium_storage_back.Billing.{
  Service, PaymentInfo, AddonInfo, CheckoutRequest, AddonCheckoutRequest, AddonPackage, list_plans,
  get_subscription, initiate_checkout, get_payment_status, addon_packages, initiate_addon_checkout,
  get_addon_status, list_user_addons,
}
use nexium_storage_back.Middleware.{Context}
use nexium_storage_back.Http.Files.{required, user_of}
use nexium_storage_back.Http.Accounts.{json_of}

unfoldable list_plans_route : Action (List Plan)
list_plans_route = list_plans

pub record SubscriptionAnswer : Type 0 where
  pub subscription : Option Subscription
  pub plan : Option Plan
  pub is_free_plan : Bool

abbrev is_none : Option Subscription → Bool
is_none none = true
is_none (some s) = false

unfoldable get_subscription_route : Service → Context → Action SubscriptionAnswer
get_subscription_route s c = do
  user_id ← user_of c
  found ← get_subscription s user_id
  pure (record { subscription = found.0; plan = found.1; is_free_plan = is_none found.0 })

unfoldable checkout_route : Service → Context → Option CheckoutRequest → Action PaymentInfo
checkout_route s c parsed = do
  user_id ← user_of c
  req ← json_of parsed
  initiate_checkout s user_id req

unfoldable get_payment_status_route : Service → Context → Option ℕ → Action PaymentInfo
get_payment_status_route s c payment = do
  user_id ← user_of c
  payment_id ← required (bad_request "invalid payment id") payment
  get_payment_status s user_id payment_id

unfoldable list_addon_packages_route : Action (List AddonPackage)
list_addon_packages_route = pure addon_packages

unfoldable addon_checkout_route : Service → Context → Option AddonCheckoutRequest → Action AddonInfo
addon_checkout_route s c parsed = do
  user_id ← user_of c
  req ← json_of parsed
  initiate_addon_checkout s user_id req

unfoldable get_addon_status_route : Service → Context → Option ℕ → Action AddonInfo
get_addon_status_route s c addon = do
  user_id ← user_of c
  addon_id ← required (bad_request "invalid addon id") addon
  get_addon_status s user_id addon_id

unfoldable list_addons_route : Context → Action (List StorageAddon)
list_addons_route c = do user_id ← user_of c; list_user_addons user_id
