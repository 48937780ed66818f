-- ===== src/Buckets/Service.antt =====
-- internal/buckets/service.go
use Prim.Native.String.{◌++◌ as ◌+s◌}
use nexium_storage_back.Shared.{
  ℕ, Bool, true, not, String, Option, none, some, List, ◌=s=◌, if◌then◌else◌, bad_request, conflict,
  not_found,
}
use nexium_storage_back.World.{
  Bucket, Action, r2_delete_prefix, pure, raise, ignore, ◌>>=◌, ◌>>◌, raise_if, call, now, new_uuid,
  uuid_text,
}
use nexium_storage_back.Buckets.Names.{valid_bucket_name}
use nexium_storage_back.Buckets.Store.{
  create_row, get_by_id_and_user, list_by_project, rename_row, set_public, delete_row,
  exists_by_name,
}

unfoldable pub check_name : String → Action (Unit {0})
check_name name = raise_if (not (valid_bucket_name name)) (
    bad_request
      "bucket name must be 3-63 lowercase alphanumeric chars or hyphens, starting and ending with a letter or digit")

abbrev or_public : Option Bool → Bool
or_public none = true
or_public (some b) = b

-- The first argument is strings.ToLower after strings.TrimSpace.
unfoldable pub create : (String → String) → ℕ → ℕ → String → Option Bool → Action Bucket
create clean user_id project_id requested is_public = do
  let name = clean requested
  check_name name
  exists ← exists_by_name project_id name
  raise_if exists (conflict "bucket name already exists in this project")
  id ← new_uuid
  t ← now
  let b : Bucket = record {
    id = id;
    project_id = project_id;
    name = name;
    is_public = or_public is_public;
    created_at = t;
  }
  create_row b
  pure b

unfoldable pub list : ℕ → ℕ → Action (List Bucket)
list user_id project_id = list_by_project project_id user_id

abbrev pub found : Option Bucket → Action Bucket
found none = raise not_found
found (some b) = pure b

unfoldable pub renamed : (String → String) → ℕ → ℕ → String → Bucket → Action Bucket
renamed clean user_id id requested b = if requested =s= "" then pure b else (do
  let name = clean requested
  check_name name
  rename_row id user_id name
  pure (record b { name = name }))

unfoldable pub published : ℕ → ℕ → Option Bool → Bucket → Action Bucket
published user_id id none b = pure b
published user_id id (some p) b = do set_public id user_id p; pure (record b { is_public = p })

unfoldable pub update : (String → String) → ℕ → ℕ → String → Option Bool → Action Bucket
update clean user_id id requested is_public = do
  o ← get_by_id_and_user id user_id
  b ← found o
  c ← renamed clean user_id id requested b
  published user_id id is_public c

unfoldable pub delete : ℕ → ℕ → Action (Unit {0})
delete user_id id = do
  o ← get_by_id_and_user id user_id
  found o
  text ← uuid_text id
  ignore (call (r2_delete_prefix (text +s "/")))
  delete_row id user_id
