-- ===== src/Examples/Gates.antt =====
-- Keys, roles, quotas and rate limits, at a concrete database.
use nexium_storage_back.Shared.{
  List, String, arith, find_by, none, ok, refl, some, ℕ, ◌∷◌, [], ◌*◌, ◌≤◌, ◌≡◌,
}
use nexium_storage_back.World.{ApiKey}
use nexium_storage_back.Middleware.{
  Context, Step, Windows, arrives, authenticate_api_key, bearer_token, count_through, sweeps,
}
use nexium_storage_back.Middleware.Bursts.{burst_bound}
use nexium_storage_back.Apikeys.{create, create_row, generate_api_key}
use nexium_storage_back.Apikeys.Scope.{created_key_acts_for_owner}
use nexium_storage_back.Examples.Fixtures.{fine, id_text-parses, project, world}

abbrev nobody : Context
nobody = record { user_id = none; project_id = none; allowed_bucket_ids = [] }

abbrev scope : List ℕ
scope = 7 ∷ []

abbrev no_windows : Windows
no_windows key = none

abbrev burst : List Step
burst = arrives "k" 10 ∷ arrives "k" 11 ∷ sweeps 12 ∷ arrives "j" 13 ∷ arrives "k" 14 ∷ []

abbrev same : String → String
same s = s

-- The key that user 2 creates for the project of user 1.
abbrev key : ApiKey
key = record {
  id = 77;
  project_id = 5;
  name = "mine";
  prefix = "nx_live_00112233";
  key_hash = "nx_live_0011223344556677";
  allowed_bucket_ids = [];
  last_used_at = none;
  revoked_at = none;
}

created_key_acts_for_owner_example :
    let w' = (create same 2 5 "mine" scope fine world).1 in
    (authenticate_api_key "Bearer nx_live_0011223344556677" nobody fine (record w' { log = [] })).0
    ≡ ok (record {
      user_id = some project.user_id;
      project_id = some project.id;
      allowed_bucket_ids = scope;
    })
unfolding create generate_api_key create_row find_by bearer_token
created_key_acts_for_owner_example =
    created_key_acts_for_owner same 2 5 "mine" scope "Bearer nx_live_0011223344556677" nobody fine
      world [] {key = key} {raw = "nx_live_0011223344556677"} {project = project} id_text-parses
      refl refl refl refl

burst_bound_example : count_through 2 60 "k" burst no_windows ≤ 2 * 2
burst_bound_example = burst_bound 2 60 "k" burst no_windows 10 (ground arith) (ground arith)
