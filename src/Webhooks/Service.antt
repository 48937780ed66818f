-- ===== src/Webhooks/Service.antt =====
-- internal/webhooks/service.go: the operations of the API.
use Prim.Native.String.{◌++◌ as ◌+s◌}
use text.Mathlib.Text.{starts_with}
use nexium_storage_back.Shared.{
  ℕ, Bool, true, false, not, ◌||◌, String, Option, none, some, List, [], ◌∷◌, ◌=s=◌, any_by,
  bad_request, not_found,
}
use nexium_storage_back.World.{
  Webhook, WebhookDelivery, Action, random_read, pure, raise, ◌>>=◌, ◌>>◌, raise_if, ask, now,
  new_uuid,
}
use nexium_storage_back.Webhooks.Store.{
  create_row, get_by_id, list_by_project, update_row, delete_row, list_deliveries_rows,
}

abbrev all_events : List String
all_events = "file.created" ∷ "file.deleted" ∷ "file.renamed" ∷ []

unfoldable pub is_valid_url : String → Bool
is_valid_url url = starts_with url "https://" || starts_with url "http://"

unfoldable pub is_known_event : String → Bool
is_known_event e = any_by (λ a. a =s= e) all_events

unfoldable pub unknown_event : List String → Bool
unknown_event = any_by (λ e. not (is_known_event e))

unfoldable pub validate_url : String → Action (Unit {0})
validate_url url =
    raise_if (not (is_valid_url url)) (bad_request "url must start with http:// or https://")

abbrev is_empty : List String → Bool
is_empty [] = true
is_empty (e ∷ es) = false

unfoldable pub validate_events : List String → Action (Unit {0})
validate_events events = do
  raise_if (is_empty events) (bad_request "at least one event is required")
  raise_if (unknown_event events) (bad_request "unknown event")

unfoldable pub generate_secret : Action String
generate_secret = do text ← ask (λ x l. x.random l) random_read; pure ("whsec_" +s text)

unfoldable pub create : ℕ → String → List String → Action (Webhook × String)
create project_id url events = do
  validate_url url
  validate_events events
  secret ← generate_secret
  t ← now
  id ← new_uuid
  let hook : Webhook = record {
    id = id;
    project_id = project_id;
    url = url;
    secret = secret;
    events = events;
    is_active = true;
    created_at = t;
    updated_at = t;
  }
  create_row hook
  pure (hook, secret)

unfoldable pub get : ℕ → ℕ → Action (Option Webhook)
get id project_id = get_by_id id project_id

unfoldable pub list : ℕ → Action (List Webhook)
list project_id = list_by_project project_id

abbrev or_not_found {ℓ} : {A : Type ℓ} → Option A → Action A
or_not_found none = raise not_found
or_not_found (some a) = pure a

unfoldable pub update : ℕ → ℕ → String → List String → Bool → Action Webhook
update id project_id url events is_active = do
  validate_url url
  validate_events events
  hook ← update_row id project_id url events is_active
  or_not_found hook

unfoldable pub delete : ℕ → ℕ → Action (Unit {0})
delete id project_id = delete_row id project_id

unfoldable pub list_deliveries : ℕ → ℕ → Action (List WebhookDelivery)
list_deliveries webhook_id project_id = do
  found ← get_by_id webhook_id project_id
  hook ← or_not_found found
  list_deliveries_rows webhook_id 50
