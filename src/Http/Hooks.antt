-- ===== src/Http/Hooks.antt =====
-- internal/webhooks/handler.go: the routes on the hooks of a project. The user is not read.
use nexium_storage_back.Shared.{
  ℕ, Bool, String, List, [], ◌∷◌, Option, none, some, ◌=s=◌, if◌then◌else◌, bad_request, not_found,
  Result, ok, err,
}
use nexium_storage_back.World.{
  Webhook, WebhookDelivery, Action, raise, pure, attempt, ◌>>=◌, ◌>>◌, raise_if,
}
use nexium_storage_back.Webhooks.{create, get, list, update, delete, list_deliveries}
use nexium_storage_back.Http.Files.{required}
use nexium_storage_back.Http.Accounts.{json_of}

-- The project of the URL: what is no identifier is `uuid.Nil`, the argument 0 here.
abbrev project_or_nil : Option ℕ → ℕ
project_or_nil none = 0
project_or_nil (some id) = id

abbrev hook_id_of : Option ℕ → Action ℕ
hook_id_of id = required (bad_request "invalid webhook id") id

unfoldable list_route : Option ℕ → Action (List Webhook)
list_route project = list (project_or_nil project)

-- The body is the URL and the events.
unfoldable pub create_route : Option ℕ → Option (String × List String) → Action (Webhook × String)
create_route project parsed = do
  req ← required (bad_request "url and events are required") parsed
  raise_if (req.0 =s= "") (bad_request "url and events are required")
  create (project_or_nil project) req.0 req.1

unfoldable get_route : Option ℕ → Option ℕ → Action Webhook
get_route project hook = do
  id ← hook_id_of hook
  row ← get id (project_or_nil project)
  required not_found row

pub record UpdateRequest : Type 0 where
  pub url : String
  pub events : List String
  pub is_active : Option Bool

-- `err != nil || existing == nil`
abbrev existing_or_error : Result (Option Webhook) → Action Webhook
existing_or_error (ok (some hook)) = pure hook
existing_or_error (ok none) = raise not_found
existing_or_error (err e) = raise not_found

abbrev url_of : UpdateRequest → Webhook → String
url_of req hook = if req.url =s= "" then hook.url else req.url

abbrev events_of : UpdateRequest → Webhook → List String
events_of req hook = elim req.events [ [] ↦ hook.events | e ∷ es ↦ req.events ]

abbrev is_active_in : UpdateRequest → Webhook → Bool
is_active_in req hook = elim req.is_active [ none ↦ hook.is_active | some b ↦ b ]

unfoldable pub update_route : Option ℕ → Option ℕ → Option UpdateRequest → Action Webhook
update_route project hook parsed = do
  id ← hook_id_of hook
  req ← json_of parsed
  row ← attempt (get id (project_or_nil project))
  existing ← existing_or_error row
  update id (project_or_nil project) (url_of req existing) (events_of req existing)
      (is_active_in req existing)

unfoldable pub delete_route : Option ℕ → Option ℕ → Action (Unit {0})
delete_route project hook = do id ← hook_id_of hook; delete id (project_or_nil project)

unfoldable list_deliveries_route : Option ℕ → Option ℕ → Action (List WebhookDelivery)
list_deliveries_route project hook = do
  id ← hook_id_of hook
  list_deliveries id (project_or_nil project)
