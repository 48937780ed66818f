-- ===== src/Apikeys/Service.antt =====
-- internal/apikeys/service.go: a key is created, listed, revoked and looked up.
use Prim.Native.String.{slice, ◌++◌ as ◌+s◌}
use nexium_storage_back.Shared.{
  ℕ, String, Option, none, some, List, [], ◌=s=◌, unauthorized, bad_request, Result, ok, err,
}
use nexium_storage_back.World.{
  ApiKey, Action, random_read, spawn, pure, raise, attempt, ◌>>=◌, ◌>>◌, raise_if, ask, read, now,
  new_uuid,
}
use nexium_storage_back.Middleware.{parse_uuids}
use nexium_storage_back.Apikeys.Store.{create_row, list_by_project, revoke_row, get_key_info}

unfoldable pub generate_api_key : Action String
generate_api_key = do text ← ask (λ x l. x.random l) random_read; pure ("nx_live_" +s text)

abbrev hash_key : String → Action String
hash_key raw x w = (ok (x.sha256_hex raw), w)

abbrev new_key : ℕ → ℕ → String → String → String → ApiKey
new_key id project_id name raw hash = record {
  id = id;
  project_id = project_id;
  name = name;
  -- `raw[:len("nx_live_")+8]`
  prefix = slice raw 0 16;
  key_hash = hash;
  allowed_bucket_ids = [];
  last_used_at = none;
  revoked_at = none;
}

-- The first argument is strings.TrimSpace. What is returned is the row and the key itself.
unfoldable pub create : (String → String) → ℕ → ℕ → String → List ℕ → Action (ApiKey × String)
create trim_space user_id project_id name allowed_bucket_ids = do
  raise_if (trim_space name =s= "") (bad_request "api key name is required")
  raw ← generate_api_key
  hash ← hash_key raw
  id ← new_uuid
  now
  let key = new_key id project_id (trim_space name) raw hash
  create_row key allowed_bucket_ids
  pure (key, raw)

unfoldable pub list : ℕ → ℕ → Action (List ApiKey)
list user_id project_id = list_by_project project_id user_id

unfoldable pub revoke : ℕ → ℕ → Action (Unit {0})
revoke user_id id = revoke_row id user_id

abbrev known_key : Result (Option (ℕ × List String)) → Action (ℕ × List String)
known_key (ok (some k)) = pure k
known_key (ok none) = raise unauthorized
known_key (err e) = raise unauthorized

abbrev parsed_scope : List String → Action (List ℕ)
parsed_scope ids x w = (ok (parse_uuids x ids), w)

unfoldable get_key_scope : String → Action (ℕ × List ℕ)
get_key_scope hash = do
  answer ← attempt (get_key_info hash)
  found ← known_key answer
  read {A = Unit {0}} (λ x l. tt) (spawn "last_used" found.0)
  ids ← parsed_scope found.1
  pure (found.0, ids)
