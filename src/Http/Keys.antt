-- ===== src/Http/Keys.antt =====
-- internal/apikeys/handler.go: the routes on the API keys of a project.
use nexium_storage_back.Shared.{ℕ, String, List, Option, bad_request}
use nexium_storage_back.World.{ApiKey, Action, ◌>>=◌}
use nexium_storage_back.Middleware.{Context}
use nexium_storage_back.Apikeys.{create, list, revoke}
use nexium_storage_back.Http.Files.{required, user_of}
use nexium_storage_back.Http.Accounts.{json_of}
use nexium_storage_back.Http.Projects.{project_id_of}

unfoldable pub list_route : Context → Option ℕ → Action (List ApiKey)
list_route c project = do
  user_id ← user_of c
  project_id ← project_id_of project
  list user_id project_id

-- The body is the name and the scope; the first argument is strings.TrimSpace.
unfoldable pub create_route :
    (String → String) → Context → Option ℕ → Option (String × List ℕ) → Action (ApiKey × String)
create_route trim_space c project parsed = do
  user_id ← user_of c
  project_id ← project_id_of project
  req ← json_of parsed
  create trim_space user_id project_id req.0 req.1

unfoldable pub revoke_route : Context → Option ℕ → Action (Unit {0})
revoke_route c key = do
  user_id ← user_of c
  id ← required (bad_request "invalid api key id") key
  revoke user_id id
