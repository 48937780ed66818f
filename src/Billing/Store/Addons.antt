-- ===== src/Billing/Store/Addons.antt =====
-- internal/billing/store.go: add-ons.
use nexium_storage_back.Shared.{
  ℕ, ◌&&◌, String, Option, none, some, List, [], ◌∷◌, ◌==◌, ◌=s=◌, ltb, if◌then◌else◌, find_by,
  select_by, update_where, sum_where, take,
}
use nexium_storage_back.World.{StorageAddon, Db, Action, query, exec}
use nexium_storage_back.Billing.Store.Plans.{AddonInfo, null_if_empty}
use nexium_storage_back.Billing.Store.Payments.{has_gateway_id}

unfoldable pub create_addon : StorageAddon → Action (Unit {0})
create_addon a = exec "billing.CreateAddon" (λ t db. record db {
  storage_addons = record a { adullam_id = none; created_at = t } ∷ db.storage_addons;
})

abbrev addon_info : Option StorageAddon → Option AddonInfo
addon_info none = none
addon_info (some a) = some (record { row = a; failure_reason = "" })

unfoldable pub get_addon : ℕ → Action (Option AddonInfo)
get_addon id =
    query "billing.GetAddon"
      (λ _ db. addon_info (find_by (λ (a : StorageAddon). a.id == id) db.storage_addons))

unfoldable pub get_addon_by_gateway_id : String → String → Action (Option AddonInfo)
get_addon_by_gateway_id id provider = query "billing.GetAddonByGatewayID" (λ _ db. addon_info (
    find_by (λ (a : StorageAddon). has_gateway_id a.adullam_id id && a.provider =s= provider)
      db.storage_addons))

unfoldable pub set_addon_status : ℕ → String → String → List StorageAddon → List StorageAddon
set_addon_status id status gid =
    update_where (λ a. a.id == id)
      (λ a. record a { status = status; adullam_id = null_if_empty gid })

unfoldable pub update_addon_status : ℕ → String → String → Action (Unit {0})
update_addon_status id status gid =
    exec "billing.UpdateAddonStatus"
      (λ _ db. record db { storage_addons = set_addon_status id status gid db.storage_addons })

unfoldable pub insert_newest_addon : StorageAddon → List StorageAddon → List StorageAddon
insert_newest_addon a [] = a ∷ []
insert_newest_addon a (b ∷ bs) =
    if ltb a.created_at b.created_at then b ∷ insert_newest_addon a bs else a ∷ b ∷ bs

unfoldable pub newest_addons : List StorageAddon → List StorageAddon
unfolding insert_newest_addon
newest_addons [] = []
newest_addons (a ∷ as_) = insert_newest_addon a (newest_addons as_)

unfoldable pub list_user_addons : ℕ → Action (List StorageAddon)
list_user_addons user_id = query "billing.ListUserAddons" (λ _ db.
    take 50
      (newest_addons (select_by (λ (a : StorageAddon). a.user_id == user_id) db.storage_addons)))

unfoldable pub completed_addon_bytes : Db → ℕ → ℕ
completed_addon_bytes db user_id =
    sum_where (λ (a : StorageAddon). a.user_id == user_id && a.status =s= "completed")
      (λ a. a.bytes) db.storage_addons

unfoldable pub sum_completed_addon_bytes : ℕ → Action ℕ
sum_completed_addon_bytes user_id =
    query "billing.SumCompletedAddonBytes" (λ _ db. completed_addon_bytes db user_id)
