-- ===== src/Projects/Operations.antt =====
-- internal/projects/service.go: projects are created, read, renamed and deleted.
use Prim.Native.String.{◌++◌ as ◌+s◌}
use nexium_storage_back.Shared.{
  ℕ, String, Option, none, some, List, [], ◌∷◌, ◌=s=◌, bad_request, not_found, Result, ok, err,
}
use nexium_storage_back.World.{
  Project, Action, r2_delete_prefix, pure, raise, attempt, ignore, ◌>>=◌, ◌>>◌, raise_if, call, now,
  new_uuid, uuid_text,
}
use nexium_storage_back.Projects.Slugs.{Unicode, slugify}
use nexium_storage_back.Projects.Store.{create_row, get_by_id, list_by_user, update_row, delete_row}

pub record Service : Type 0 where
  -- the function that cmd/server/main.go injects
  pub list_bucket_ids : ℕ → ℕ → Action (List ℕ)
  pub trim_space : String → String
  pub unicode : Unicode

abbrev project_or_error : Option Project → Action Project
project_or_error none = raise not_found
project_or_error (some p) = pure p

unfoldable pub create : Service → ℕ → String → Action Project
create s user_id requested = do
  let name = s.trim_space requested
  raise_if (name =s= "") (bad_request "project name is required")
  now
  id ← new_uuid
  let p : Project = record {
    id = id;
    user_id = user_id;
    name = name;
    slug = slugify s.unicode name;
  }
  create_row p
  pure p

unfoldable pub get : ℕ → ℕ → Action Project
get user_id id = do row ← get_by_id id user_id; project_or_error row

unfoldable pub list : ℕ → Action (List Project)
list user_id = list_by_user user_id

unfoldable pub update : Service → ℕ → ℕ → String → Action Project
update s user_id id requested = do
  row ← get_by_id id user_id
  p ← project_or_error row
  let name = s.trim_space requested
  raise_if (name =s= "") (bad_request "project name is required")
  now
  let renamed : Project = record p { name = name; slug = slugify s.unicode name }
  update_row renamed
  pure renamed

-- Errors of the object store are ignored.
unfoldable pub delete_objects : List ℕ → Action (Unit {0})
delete_objects [] = pure tt
delete_objects (id ∷ ids) = do
  text ← uuid_text id
  ignore (call (r2_delete_prefix (text +s "/")))
  delete_objects ids

-- `if bucketIDs, err := ...; err == nil`
abbrev pub objects_of : Result (List ℕ) → Action (Unit {0})
objects_of (ok ids) = delete_objects ids
objects_of (err e) = pure tt

unfoldable pub delete : Service → ℕ → ℕ → Action (Unit {0})
delete s user_id id = do
  row ← get_by_id id user_id
  project_or_error row
  ids ← attempt (s.list_bucket_ids id user_id)
  objects_of ids
  delete_row id user_id
