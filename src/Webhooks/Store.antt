-- ===== src/Webhooks/Store.antt =====
-- internal/webhooks/store.go: the SQL statements on the hooks and their deliveries.
use nexium_storage_back.Shared.{
  ℕ, Bool, ◌&&◌, ◌||◌, String, Option, List, [], ◌∷◌, ◌==◌, ltb, if◌then◌else◌, find_by, select_by,
  update_where, delete_where, take, ok, err,
}
use nexium_storage_back.World.{Webhook, WebhookDelivery, Action, query, exec}

abbrev pub is_hook : ℕ → ℕ → Webhook → Bool
is_hook id project_id h = h.id == id && h.project_id == project_id

unfoldable pub create_row : Webhook → Action (Unit {0})
create_row h = exec "webhooks.Create" (λ _ db. record db { webhooks = h ∷ db.webhooks })

unfoldable pub get_by_id : ℕ → ℕ → Action (Option Webhook)
get_by_id id project_id =
    query "webhooks.GetByID" (λ _ db. find_by (is_hook id project_id) db.webhooks)

unfoldable insert_newest_hook : Webhook → List Webhook → List Webhook
insert_newest_hook h [] = h ∷ []
insert_newest_hook h (g ∷ gs) =
    if ltb h.created_at g.created_at then g ∷ insert_newest_hook h gs else h ∷ g ∷ gs

unfoldable pub newest_hooks : List Webhook → List Webhook
unfolding insert_newest_hook
newest_hooks [] = []
newest_hooks (h ∷ hs) = insert_newest_hook h (newest_hooks hs)

unfoldable pub list_by_project : ℕ → Action (List Webhook)
list_by_project project_id =
    query "webhooks.ListByProject"
      (λ _ db. newest_hooks (select_by (λ (h : Webhook). h.project_id == project_id) db.webhooks))

abbrev pub updated : String → List String → Bool → ℕ → Webhook → Webhook
updated url events is_active t h = record h {
  url = url;
  events = events;
  is_active = is_active;
  updated_at = t;
}

-- The `UPDATE`, and the row that it returns.
unfoldable pub update_row : ℕ → ℕ → String → List String → Bool → Action (Option Webhook)
update_row id project_id url events is_active x w =
    let (r, w') =
      exec "webhooks.Update"
        (λ t db. record db {
          webhooks =
              update_where (is_hook id project_id) (updated url events is_active t) db.webhooks;
        })
        x w in
    (elim r [ ok _ ↦ ok (find_by (is_hook id project_id) w'.db.webhooks) | err e ↦ err e ], w')

unfoldable pub delete_row : ℕ → ℕ → Action (Unit {0})
delete_row id project_id =
    exec "webhooks.Delete"
      (λ _ db. record db { webhooks = delete_where (is_hook id project_id) db.webhooks })

abbrev pub is_active_of : ℕ → Webhook → Bool
is_active_of project_id h = h.project_id == project_id && h.is_active

unfoldable pub list_active_by_project : ℕ → Action (List Webhook)
list_active_by_project project_id =
    query "webhooks.ListActiveByProject" (λ _ db. select_by (is_active_of project_id) db.webhooks)

unfoldable pub save_delivery : WebhookDelivery → Action (Unit {0})
save_delivery d =
    exec "webhooks.SaveDelivery"
      (λ _ db. record db { webhook_deliveries = d ∷ db.webhook_deliveries })

abbrev clamp_limit : ℕ → ℕ
clamp_limit n = if n == 0 || ltb 100 n then 50 else n

-- The rows are kept newest first, in the order in which they were saved.
unfoldable pub list_deliveries_rows : ℕ → ℕ → Action (List WebhookDelivery)
list_deliveries_rows webhook_id limit = query "webhooks.ListDeliveries" (λ _ db.
    take (clamp_limit limit)
      (select_by (λ (d : WebhookDelivery). d.webhook_id == webhook_id) db.webhook_deliveries))
