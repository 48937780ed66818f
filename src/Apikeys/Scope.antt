-- ===== src/Apikeys/Scope.antt =====
-- What a key opens from its creation to its revocation (internal/apikeys and pkg/middleware/auth.go).
use nexium_storage_back.Shared.{
  ℕ, ◌≡◌, Bool, false, ◌&&◌, String, some, List, [], ◌∷◌, ◌==◌, find_by, update_where, arith, ok,
}
use text.Mathlib.TextPositions.{eq_refl}
use nexium_storage_back.World.{ApiKey, Project, Db, Log, sql, Ext, World}
use nexium_storage_back.Middleware.{
  Context, bearer_token, authenticate_api_key, find_key, is_live_key,
}
use nexium_storage_back.Middleware.Guards.{parse_uuids-map}
use nexium_storage_back.Apikeys.Store.{create_row, owns_project, is_unrevoked, revoke_row}
use nexium_storage_back.Apikeys.Service.{generate_api_key, create, revoke}

-- A key that any user at all has created for an existing project is accepted on the tables that the
-- creation leaves, and the request that carries it acts for the owner of the project, within the scope
-- that was asked for: neither the creation nor the use compares the creator with the owner.
pub created_key_acts_for_owner :
    (trim : String → String) (user_id project_id : ℕ) (name : String) (ids : List ℕ)
    (header : String) (c : Context) (x : Ext) (w : World) (l : Log) {key : ApiKey} {raw : String}
    {project : Project}
    → ((id : ℕ) → x.parse_uuid (x.uuid_string id) ≡ some id)
    → (create trim user_id project_id name ids x w).0 ≡ ok (key, raw)
    → find_by (λ (p : Project). p.id == project_id) w.db.projects ≡ some project
    → bearer_token header ≡ some raw
    → x.fails (sql "AuthenticateAPIKey" ∷ l) ≡ false
    → let w' = (create trim user_id project_id name ids x w).1 in
      (authenticate_api_key header c x (record w' { log = l })).0
      ≡ ok (record {
        user_id = some project.user_id;
        project_id = some project.id;
        allowed_bucket_ids = ids;
      })
unfolding create generate_api_key create_row authenticate_api_key find_key find_by
created_key_acts_for_owner trim u p name ids header c x w l {raw = raw} parses h e b f =
    ground (arith, parse_uuids-map x ids parses, eq_refl (x.sha256_hex raw))

abbrev is_revocable : ℕ → ℕ → Db → ApiKey → Bool
is_revocable user_id id db k =
    k.id == id && (owns_project db user_id k.project_id && is_unrevoked k)

no_live_left :
    (q : ℕ → Bool) (id t : ℕ) (hash : String) (ks : List ApiKey) {k : ApiKey}
    → find_by (is_live_key hash) (
        update_where
          (λ (y : ApiKey). y.id == id && (q y.project_id && is_unrevoked y))
          (λ y. record y { revoked_at = some t })
          ks)
      ≡ some k
    → k.id ≡ id
    → q k.project_id ≡ false
unfolding find_by update_where
no_live_left q id t hash [] h e = cc
no_live_left q id t hash (y ∷ ks) {k = k} h e = ground (arith, no_live_left q id t hash ks {k = k})

-- After a revocation that returns, no live key of the id is left in a project of the user's.
revoke_revokes :
    (user_id id : ℕ) (hash : String) (x : Ext) (w : World) {k : ApiKey}
    → (revoke user_id id x w).0 ≡ ok tt
    → find_by (is_live_key hash) (revoke user_id id x w).1.db.api_keys ≡ some k
    → k.id ≡ id
    → owns_project (revoke user_id id x w).1.db user_id k.project_id ≡ false
unfolding revoke revoke_row owns_project
revoke_revokes u id hash x w {k = k} h f e =
    let t = x.clock (sql "apikeys.Revoke" ∷ w.log) in
    ground (arith, no_live_left (λ p. owns_project w.db u p) id t hash w.db.api_keys {k = k})
