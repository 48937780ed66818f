-- ===== src/Billing/Addons.antt =====
-- internal/billing/service.go: storage add-ons, their checkout, status and activation.
use nexium_storage_back.Shared.{
  ℕ, Bool, false, not, ◌||◌, String, Option, none, some, List, [], ◌∷◌, ◌=s=◌, ◌==◌, if◌then◌else◌,
  find_by, add_int64, some, api, Result, ok, err, bad_request, not_found,
}
use nexium_storage_back.World.{
  Plan, Subscription, StorageAddon, Remote, gateway_create, gateway_get, Action, pure, raise,
  attempt, when, ignore, ◌>>=◌, ◌>>◌, raise_if, ask, new_uuid,
}
use nexium_storage_back.Billing.Store.{
  AddonInfo, gateway_id, null_if_empty, get_plan_by_slug, get_subscription_row, get_channel_info,
  create_addon, get_addon, update_addon_status, sum_completed_addon_bytes,
}
use nexium_storage_back.Billing.Gateway.{is_terminal}
use nexium_storage_back.Billing.Subscriptions.{Service, start_mail}
use nexium_storage_back.Billing.Checkout.{
  country_or_default, stored_status, polled_status, reason_of, customer,
}

pub record AddonPackage : Type 0 where
  pub id : String
  pub bytes : ℕ
  pub price_xof : ℕ
  pub label : String

unfoldable pub addon_packages : List AddonPackage
addon_packages =
    record { id = "addon-50gb"; bytes = 53687091200; price_xof = 1500; label = "+50 GB" }
    ∷ record { id = "addon-100gb"; bytes = 107374182400; price_xof = 2800; label = "+100 GB" }
    ∷ record { id = "addon-250gb"; bytes = 268435456000; price_xof = 6500; label = "+250 GB" }
    ∷ record { id = "addon-500gb"; bytes = 536870912000; price_xof = 12000; label = "+500 GB" }
    ∷ []

pub record AddonCheckoutRequest : Type 0 where
  pub package_id : String
  pub channel : String
  pub phone : String
  pub country_code : String

-- The bytes of the plan below the add-ons; the free plan's where there is no subscription.
abbrev free_bytes : Result (Option Plan) → ℕ
free_bytes (err e) = 0
free_bytes (ok none) = 0
free_bytes (ok (some free)) = free.storage_bytes

unfoldable pub base_bytes : Option (Subscription × Plan) → Action ℕ
base_bytes (some (sub, plan)) = pure plan.storage_bytes
base_bytes none = do free ← attempt (get_plan_by_slug "free"); pure (free_bytes free)

unfoldable pub activate_addon : Service → StorageAddon → Action (Unit {0})
activate_addon s addon = do
  sub ← get_subscription_row addon.user_id
  base ← base_bytes sub
  total ← sum_completed_addon_bytes addon.user_id
  s.set_quota addon.user_id (some (add_int64 base total))
  start_mail s "sendAddonEmail" addon.user_id

-- `sub == nil || sub.Plan == nil || !sub.Plan.AddonsEnabled`
abbrev addons_available : Option (Subscription × Plan) → Bool
addons_available none = false
addons_available (some (sub, plan)) = plan.addons_enabled

abbrev known_package : Option AddonPackage → Action AddonPackage
known_package none = raise (bad_request "package inconnu")
known_package (some p) = pure p

unfoldable pub charge_addon : Service → StorageAddon → Action AddonInfo
charge_addon s a = do
  customer s a.provider a.user_id
  answer ← attempt (ask (λ x l. x.remote l) (gateway_create a.provider a.id a.price_xof))
  elim answer [
    | err e ↦ (do
      ignore (update_addon_status a.id "failed" "")
      raise (api 502 "payment gateway error"))
    | ok remote ↦ (do
      ignore (update_addon_status a.id (stored_status s a.provider remote.status) remote.id)
      pure (record {
        row = record a {
          adullam_id = null_if_empty remote.id;
          status = stored_status s a.provider remote.status;
        };
        failure_reason = "";
      }))
  ]

abbrev new_addon : ℕ → ℕ → AddonPackage → AddonCheckoutRequest → String → StorageAddon
new_addon id user_id pkg req provider = record {
  id = id;
  user_id = user_id;
  package_id = pkg.id;
  bytes = pkg.bytes;
  price_xof = pkg.price_xof;
  fee_xof = 0;
  adullam_id = none;
  status = "pending";
  channel = req.channel;
  phone = req.phone;
  provider = provider;
  country_code = country_or_default req.country_code;
  created_at = 0;
}

unfoldable pub initiate_addon_checkout : Service → ℕ → AddonCheckoutRequest → Action AddonInfo
initiate_addon_checkout s user_id req = do
  sub ← get_subscription_row user_id
  raise_if (not (addons_available sub))
      (bad_request "les add-ons ne sont pas disponibles sur votre plan actuel")
  pkg ← known_package (find_by (λ (p : AddonPackage). p.id =s= req.package_id) addon_packages)
  channel ← get_channel_info req.channel
  raise_if (not (channel.0)) (bad_request "canal de paiement invalide ou indisponible")
  raise_if (req.phone =s= "") (bad_request "phone est requis")
  id ← new_uuid
  create_addon (new_addon id user_id pkg req channel.1)
  charge_addon s (new_addon id user_id pkg req channel.1)

unfoldable pub apply_addon_answer : Service → AddonInfo → Remote → Action AddonInfo
apply_addon_answer s a remote =
    let status = polled_status s a.row.provider remote.status in
    let a' : AddonInfo = record a {
      row = record (a.row) { status = status };
      failure_reason = reason_of status remote a.failure_reason;
    } in
    (do
      when (not (status =s= a.row.status)) (ignore (update_addon_status a.row.id status remote.id))
      when (status =s= "completed") (activate_addon s a'.row)
      pure a')

unfoldable pub poll_addon : Service → AddonInfo → Action AddonInfo
poll_addon s a = do
  answer ←
      attempt (ask (λ x l. x.remote l) (gateway_get a.row.provider (gateway_id a.row.adullam_id)))
  elim answer [ err e ↦ pure a | ok remote ↦ apply_addon_answer s a remote ]

unfoldable pub get_addon_status : Service → ℕ → ℕ → Action AddonInfo
get_addon_status s user_id addon_id = do
  found ← get_addon addon_id
  elim found [
    | none ↦ raise not_found
    | some a ↦
        if not (a.row.user_id == user_id)
        then raise not_found
        else if is_terminal a.row.status || gateway_id a.row.adullam_id =s= ""
        then pure a
        else poll_addon s a
  ]
