-- ===== src/Middleware/Scope.antt =====
-- pkg/middleware/auth.go, admin.go and super_admin.go: who makes the request, and what it may touch.
use Prim.Native.String.{slice, len}
use text.Mathlib.Text.{starts_with}
use nexium_storage_back.Shared.{
  ℕ, Bool, true, false, not, ◌&&◌, String, Option, none, some, List, [], ◌∷◌, ◌==◌, ◌=s=◌, find_by,
  any_by, if◌then◌else◌, unauthorized, forbidden, bad_request, Result, ok, err,
}
use nexium_storage_back.World.{
  User, Project, ApiKey, Db, Action, Ext, spawn, pure, raise, attempt, ◌>>=◌, ◌>>◌, raise_if, read,
  query,
}

-- The values that the middleware puts into the request's context.
pub record Context : Type 0 where
  pub user_id : Option ℕ
  pub project_id : Option ℕ
  pub allowed_bucket_ids : List ℕ

-- The text after "Bearer ".
unfoldable pub bearer_token : String → Option String
bearer_token header =
    if starts_with header "Bearer " then some (slice header 7 (len header)) else none

abbrev or_unauthorized {ℓ} : {A : Type ℓ} → Option A → Action A
or_unauthorized none = raise unauthorized
or_unauthorized (some a) = pure a

abbrev verify_token : String → String → Action (Option String)
verify_token secret token x w = (ok (x.jwt_subject secret token), w)

abbrev parse_id : String → Action (Option ℕ)
parse_id text x w = (ok (x.parse_uuid text), w)

unfoldable pub authenticate : String → String → Context → Action Context
authenticate secret header c = do
  token ← or_unauthorized (bearer_token header)
  subject ← verify_token secret token
  sub ← or_unauthorized subject
  parsed ← parse_id sub
  user_id ← or_unauthorized parsed
  pure (record c { user_id = some user_id })

-- `parseUUIDs`: what is no identifier is left out.
unfoldable pub parse_uuids : Ext → List String → List ℕ
parse_uuids x [] = []
parse_uuids x (t ∷ ts) = elim (x.parse_uuid t) [
  | none ↦ parse_uuids x ts
  | some id ↦ id ∷ parse_uuids x ts
]

abbrev pub is_live_key : String → ApiKey → Bool
is_live_key hash k =
    k.key_hash =s= hash && (elim k.revoked_at as (λ _. Bool) [ none ↦ true | some t ↦ false ])

-- `JOIN projects`: the user, the project and the scope of a key that is not revoked.
unfoldable pub find_key : Db → String → Option (ℕ × ℕ × List String)
find_key db hash = elim (find_by (is_live_key hash) db.api_keys) [
  | none ↦ none
  | some k ↦ elim (find_by (λ (p : Project). p.id == k.project_id) db.projects) [
    | none ↦ none
    | some p ↦ some (p.user_id, p.id, k.allowed_bucket_ids)
  ]
]

abbrev found_key : Result (Option (ℕ × ℕ × List String)) → Action (ℕ × ℕ × List String)
found_key (ok (some k)) = pure k
found_key (ok none) = raise unauthorized
found_key (err e) = raise unauthorized

abbrev hash_of : String → Action String
hash_of text x w = (ok (x.sha256_hex text), w)

abbrev scope_of : List String → Action (List ℕ)
scope_of ids x w = (ok (parse_uuids x ids), w)

unfoldable pub authenticate_api_key : String → Context → Action Context
authenticate_api_key header c = do
  key ← or_unauthorized (bearer_token header)
  hash ← hash_of key
  answer ← attempt (query "AuthenticateAPIKey" (λ _ db. find_key db hash))
  found ← found_key answer
  read {A = Unit {0}} (λ x l. tt) (spawn "last_used_at" found.0)
  allowed ← scope_of found.2
  pure (record { user_id = some found.0; project_id = some found.1; allowed_bucket_ids = allowed })

-- `RequireBucketScope`, on the parameter {bucketID} of the URL.
unfoldable pub require_bucket_scope : Context → Option ℕ → Result (Unit {0})
require_bucket_scope c bucket_id = elim c.allowed_bucket_ids [
  | [] ↦ ok tt
  | a ∷ as_ ↦ elim bucket_id [
    | none ↦ err (bad_request "invalid bucket id")
    | some id ↦
        if any_by (λ allowed. allowed == id) c.allowed_bucket_ids then ok tt else err forbidden
  ]
]

-- `RequireAdmin` and `RequireSuperAdmin`: the column is the argument.
abbrev has_role : (User → Bool) → Result (Option User) → Bool
has_role role (ok (some u)) = role u
has_role role (ok none) = false
has_role role (err e) = false

unfoldable pub require_role : String → (User → Bool) → Context → Action (Unit {0})
require_role name role c = elim c.user_id [
  | none ↦ raise unauthorized
  | some id ↦ (do
    found ← attempt (query name (λ _ db. find_by (λ (u : User). u.id == id) db.users))
    raise_if (not (has_role role found)) forbidden)
]

unfoldable pub require_admin : Context → Action (Unit {0})
require_admin = require_role "RequireAdmin" (λ u. u.is_admin)

unfoldable pub require_super_admin : Context → Action (Unit {0})
require_super_admin = require_role "RequireSuperAdmin" (λ u. u.is_super_admin)
