-- ===== src/Http/Buckets.antt =====
-- internal/buckets/handler.go: the routes on the buckets of a project.
use nexium_storage_back.Shared.{ℕ, Bool, String, List, Option, bad_request}
use nexium_storage_back.World.{Bucket, Action, pure, ◌>>=◌, ◌>>◌}
use nexium_storage_back.Middleware.{Context}
use nexium_storage_back.Buckets.{create, list, update, delete}
use nexium_storage_back.Http.Files.{required, user_of}
use nexium_storage_back.Http.Accounts.{json_of, log_async}
use nexium_storage_back.Http.Projects.{project_id_of}

abbrev bucket_id_of : Option ℕ → Action ℕ
bucket_id_of id = required (bad_request "invalid bucket id") id

unfoldable pub list_route : Context → Option ℕ → Action (List Bucket)
list_route c project = do
  user_id ← user_of c
  project_id ← project_id_of project
  list user_id project_id

-- The body is the name and the visibility; the first argument trims and lowers the name.
unfoldable pub create_route :
    (String → String) → Context → Option ℕ → Option (String × Option Bool) → Action Bucket
create_route clean c project parsed = do
  user_id ← user_of c
  project_id ← project_id_of project
  req ← json_of parsed
  b ← create clean user_id project_id req.0 req.1
  log_async user_id "bucket.create"
  pure b

unfoldable pub update_route :
    (String → String) → Context → Option ℕ → Option (String × Option Bool) → Action Bucket
update_route clean c bucket parsed = do
  user_id ← user_of c
  id ← bucket_id_of bucket
  req ← json_of parsed
  update clean user_id id req.0 req.1

unfoldable pub delete_route : Context → Option ℕ → Action (Unit {0})
delete_route c bucket = do
  user_id ← user_of c
  id ← bucket_id_of bucket
  delete user_id id
  log_async user_id "bucket.delete"
