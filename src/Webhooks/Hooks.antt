-- ===== src/Webhooks/Hooks.antt =====
-- What a hook can be created and updated with (internal/webhooks/service.go: `Create`, `Update`).
use nexium_storage_back.Shared.{
  ℕ, ◌≡◌, refl, ◌≢◌, Bool, true, false, String, some, List, [], ◌∷◌, find_by, find_by-update_where,
  find_by-update_where_other, update_where, find_by_sound, arith, ok,
}
use nexium_storage_back.World.{sql, Ext, World, Webhook}
use nexium_storage_back.Webhooks.Service.{
  is_valid_url, unknown_event, validate_url, validate_events, generate_secret, create, update,
}
use nexium_storage_back.Webhooks.Store.{create_row, update_row, is_hook, updated, is_active_of}

-- What `Create` returns is stored as an active hook of the project, with the URL and the events
-- that were asked for; the URL is of HTTP, and the events are known and at least one.
create_validates :
    (project_id : ℕ) (url : String) (events : List String) (x : Ext) (w : World) {hook : Webhook}
    {secret : String}
    → (create project_id url events x w).0 ≡ ok (hook, secret)
    → ((create project_id url events x w).1.db ≡ record (w.db) { webhooks = hook ∷ w.db.webhooks })
      × (is_active_of project_id hook ≡ true)
      × (hook.url ≡ url)
      × (hook.events ≡ events)
      × (is_valid_url url ≡ true)
      × (events ≢ [])
      × (unknown_event events ≡ false)
unfolding create validate_url validate_events generate_secret create_row
create_validates project_id url events x w h = ground arith

-- An `Update` that returns leaves in the table the hook that it returns, with what was asked for,
-- under the id and the project; every other id and project finds what it found before.
update_in_project :
    (id project_id : ℕ) (url : String) (events : List String) (active : Bool) (x : Ext) (w : World)
    (id' project_id' : ℕ) {hook : Webhook}
    → (update id project_id url events active x w).0 ≡ ok hook
    → is_hook id' project_id' hook ≡ false
    → let db' = (update id project_id url events active x w).1.db in
      (find_by (is_hook id project_id) db'.webhooks ≡ some hook)
      × (hook.url ≡ url)
      × (hook.events ≡ events)
      × (hook.is_active ≡ active)
      × (find_by (is_hook id' project_id') db'.webhooks
          ≡ find_by (is_hook id' project_id') w.db.webhooks)
unfolding update validate_url validate_events update_row
update_in_project id project_id url events active x w i q {hook = hook} h n =
    let t = x.clock (sql "webhooks.Update" ∷ w.log) in
    let f = updated url events active t in
    let rows = w.db.webhooks in
    let found = find_by-update_where (is_hook id project_id) f rows (λ g. refl) in
    let sound = λ (g : Webhook).
      find_by_sound (is_hook id project_id) (update_where (is_hook id project_id) f rows) {x = g} in
    let other = λ (m : is_hook id project_id hook ≡ true).
      find_by-update_where_other (is_hook i q) (is_hook id project_id) f rows
        (λ y e. ground (arith, n, m)) (λ y e. ground (arith, n, m)) in
    (
      ground (arith, found),
      ground (arith, found),
      ground (arith, found),
      ground (arith, found),
      ground (arith, sound hook, other),
    )
