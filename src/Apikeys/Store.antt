-- ===== src/Apikeys/Store.antt =====
-- internal/apikeys/store.go: the SQL statements on the table `api_keys`.
use nexium_storage_back.Shared.{
  ℕ, Bool, true, false, ◌&&◌, String, Option, none, some, List, ◌∷◌, ◌==◌, ◌=s=◌, find_by,
  select_by, update_where, map,
}
use nexium_storage_back.World.{ApiKey, Project, Db, Action, query, exec}
use nexium_storage_back.Middleware.{is_live_key}

-- The identifiers are stored as texts, and an empty scope as `NULL`.
unfoldable pub create_row : ApiKey → List ℕ → Action (Unit {0})
create_row k bucket_ids x =
    exec "apikeys.Create"
      (λ _ db. record db {
        api_keys = record k { allowed_bucket_ids = map x.uuid_string bucket_ids } ∷ db.api_keys;
      })
      x

-- `JOIN projects p ... p.user_id = $2`
unfoldable pub owns_project : Db → ℕ → ℕ → Bool
owns_project db user_id project_id =
    elim (find_by (λ (p : Project). p.id == project_id) db.projects) [
      | none ↦ false
      | some p ↦ p.user_id == user_id
    ]

-- The rows are kept newest first, in the order in which they were created.
unfoldable pub list_by_project : ℕ → ℕ → Action (List ApiKey)
list_by_project project_id user_id = query "apikeys.ListByProject" (λ _ db.
    select_by (λ (k : ApiKey). k.project_id == project_id && owns_project db user_id k.project_id)
      db.api_keys)

abbrev pub is_unrevoked : ApiKey → Bool
is_unrevoked k = elim k.revoked_at as (λ _. Bool) [ none ↦ true | some t ↦ false ]

unfoldable pub revoke_row : ℕ → ℕ → Action (Unit {0})
revoke_row id user_id = exec "apikeys.Revoke" (λ t db. record db {
  api_keys =
      update_where
        (λ (k : ApiKey). k.id == id && (owns_project db user_id k.project_id && is_unrevoked k))
        (λ k. record k { revoked_at = some t }) db.api_keys;
})

unfoldable pub get_key_info : String → Action (Option (ℕ × List String))
get_key_info hash = query "apikeys.GetKeyInfo" (λ _ db.
    elim (find_by (is_live_key hash) db.api_keys) [
      | none ↦ none
      | some k ↦ some (k.project_id, k.allowed_bucket_ids)
    ])

unfoldable update_last_used : String → Action (Unit {0})
update_last_used hash = exec "apikeys.UpdateLastUsed" (λ t db. record db {
  api_keys =
      update_where (λ (k : ApiKey). k.key_hash =s= hash) (λ k. record k { last_used_at = some t })
        db.api_keys;
})
