-- ===== src/Http/Projects.antt =====
-- internal/projects/handler.go and internal/usage/handler.go: the routes on a user's projects.
use nexium_storage_back.Shared.{ℕ, String, List, Option, bad_request}
use nexium_storage_back.World.{Project, Action, pure, ◌>>=◌, ◌>>◌}
use nexium_storage_back.Middleware.{Context}
use nexium_storage_back.Projects.{Service, create, get, list, update, delete}
use nexium_storage_back.Usage.{Summary, get_summary}
use nexium_storage_back.Http.Files.{required, user_of}
use nexium_storage_back.Http.Accounts.{json_of, log_async}

abbrev pub project_id_of : Option ℕ → Action ℕ
project_id_of id = required (bad_request "invalid project id") id

unfoldable pub list_route : Context → Action (List Project)
list_route c = do user_id ← user_of c; list user_id

unfoldable pub create_route : Service → Context → Option String → Action Project
create_route s c parsed = do
  user_id ← user_of c
  name ← json_of parsed
  p ← create s user_id name
  log_async user_id "project.create"
  pure p

unfoldable pub get_route : Context → Option ℕ → Action Project
get_route c project = do user_id ← user_of c; id ← project_id_of project; get user_id id

unfoldable pub update_route : Service → Context → Option ℕ → Option String → Action Project
update_route s c project parsed = do
  user_id ← user_of c
  id ← project_id_of project
  name ← json_of parsed
  update s user_id id name

unfoldable pub delete_route : Service → Context → Option ℕ → Action (Unit {0})
delete_route s c project = do
  user_id ← user_of c
  id ← project_id_of project
  delete s user_id id
  log_async user_id "project.delete"

unfoldable pub summary_route : Context → Option ℕ → Action Summary
summary_route c project = do
  user_id ← user_of c
  project_id ← project_id_of project
  get_summary project_id user_id
