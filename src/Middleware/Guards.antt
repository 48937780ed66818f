-- ===== src/Middleware/Guards.antt =====
-- What the guards of pkg/middleware let through.
use nexium_storage_back.Shared.{
  ℕ, ◌+◌, ◌≤◌, ◌≡◌, refl, inl, inr, ◌≢◌, Bool, true, false, String, Option, some, List, [], ◌∷◌,
  ◌==◌, map, if◌then◌else◌, arith, Option-cases, find_by, any_by, find_by-none, any_by-find_by,
  find_by-update_where, find_by-update_where_other, Result, ok, err, unauthorized, forbidden,
}
use nexium_storage_back.World.{Log, User, Db, Ext, World}
use nexium_storage_back.Middleware.Scope.{
  Context, bearer_token, authenticate_api_key, parse_uuids, find_key, is_live_key,
  require_bucket_scope, require_role, require_admin, require_super_admin,
}
use nexium_storage_back.Middleware.ApiQuota.{
  is_of_month, request_count, quota_row, check_api_quota, incremented, count_request,
}

pub parse_uuids-map :
    (x : Ext) (ids : List ℕ)
    → ((id : ℕ) → x.parse_uuid (x.uuid_string id) ≡ some id)
    → parse_uuids x (map x.uuid_string ids) ≡ ids
unfolding parse_uuids
parse_uuids-map x [] h = refl
parse_uuids-map x (id ∷ ids) h = rw (h id) (rw (parse_uuids-map x ids h))

-- A key that was stored with a scope of buckets, as the texts of their ids, opens exactly those
-- buckets, and every bucket if the scope is empty; it acts for the owner of its project.
key_scope :
    (header key : String) (c : Context) (x : Ext) (w : World) (u p b : ℕ) (ids : List ℕ)
    {c' : Context}
    → ((id : ℕ) → x.parse_uuid (x.uuid_string id) ≡ some id)
    → bearer_token header ≡ some key
    → find_key w.db (x.sha256_hex key) ≡ some (u, p, map x.uuid_string ids)
    → (authenticate_api_key header c x w).0 ≡ ok c'
    → (c'.user_id ≡ some u)
      × (c'.project_id ≡ some p)
      × (require_bucket_scope c' (some b) ≡ (
          if any_by (λ id. id == b) ids
          then ok tt
          else elim ids as (λ _. Result (Unit {0})) [ [] ↦ ok tt | i ∷ is ↦ err forbidden ]))
unfolding authenticate_api_key require_bucket_scope any_by
key_scope header key c x w u p b ids parses e k h = ground (arith, parse_uuids-map x ids parses)

-- A key that is unknown or revoked is refused, and the tables are as they were.
revoked_key_refused :
    (header key : String) (c : Context) (x : Ext) (w : World)
    → bearer_token header ≡ some key
    → any_by (is_live_key (x.sha256_hex key)) w.db.api_keys ≡ false
    → ((authenticate_api_key header c x w).0 ≡ err unauthorized)
      × ((authenticate_api_key header c x w).1.db ≡ w.db)
unfolding authenticate_api_key find_key
revoked_key_refused header key c x w e h =
    let missing = find_by-none _ _ h in (ground (arith, missing), ground (arith, missing))

-- A route that asks for a role is entered only by a user whose row has the flag: the first row of
-- the id that the request carries.
role_needs_flag :
    (name : String) (role : User → Bool) (c : Context) (x : Ext) (w : World)
    → (require_role name role c x w).0 ≡ ok tt
    → (id : ℕ) × (c.user_id ≡ some id)
      × ((u : User) × (find_by (λ (v : User). v.id == id) w.db.users ≡ some u) × (role u ≡ true))
unfolding require_role
role_needs_flag name role c x w h = elim (Option-cases c.user_id) [
  | inl e ↦ absurd (ground (arith, e))
  | inr (id, e) ↦ elim (Option-cases (find_by (λ (v : User). v.id == id) w.db.users)) [
    | inl f ↦ absurd (ground (arith, e, f))
    | inr (u, f) ↦ (id, e, (u, f, ground (arith, e, f)))
  ]
]

-- An administrator's route is entered only by a user whose row has the flag: the first found by
-- the id of the request. The super administrator's likewise.
admin_needs_flag :
    (c : Context) (x : Ext) (w : World)
    → ((require_admin c x w).0 ≡ ok tt
        → (id : ℕ) × (c.user_id ≡ some id)
          × ((u : User) × (find_by (λ (v : User). v.id == id) w.db.users ≡ some u)
              × (u.is_admin ≡ true)))
      × ((require_super_admin c x w).0 ≡ ok tt
          → (id : ℕ) × (c.user_id ≡ some id)
            × ((u : User) × (find_by (λ (v : User). v.id == id) w.db.users ≡ some u)
                × (u.is_super_admin ≡ true)))
unfolding require_admin require_super_admin
admin_needs_flag c x w = (
  role_needs_flag "RequireAdmin" (λ u. u.is_admin) c x w,
  role_needs_flag "RequireSuperAdmin" (λ u. u.is_super_admin) c x w,
)

pub request_count-incremented :
    (db : Db) (u m : ℕ)
    → request_count (record db { api_request_counts = incremented u m db.api_request_counts }) u m
      ≡ request_count db u m + 1
unfolding request_count incremented find_by
request_count-incremented db u m =
    let p = is_of_month u m in
    let rows = db.api_request_counts in
    ground (
      arith,
      any_by-find_by p rows,
      find_by-update_where p (λ c. record c { count = c.count + 1 }) rows (λ c. refl),
    )

request_count-incremented_other :
    (db : Db) (u v m : ℕ)
    → u ≢ v
    → request_count (record db { api_request_counts = incremented u m db.api_request_counts }) v m
      ≡ request_count db v m
unfolding request_count incremented find_by
request_count-incremented_other db u v m ne =
    let p = is_of_month v m in
    let q = is_of_month u m in
    let rows = db.api_request_counts in
    let other =
      find_by-update_where_other p q (λ c. record c { count = c.count + 1 }) rows
        (λ y e. ground arith) (λ y e. ground arith) in
    ground (arith, other)

pub quota_row_count :
    (db : Db) (u m : ℕ) {row : Option ℕ × ℕ}
    → quota_row db u m ≡ some row
    → row.1 ≡ request_count db u m
unfolding quota_row
quota_row_count db u m h = ground arith

-- A request that the quota lets through, and that is counted before another one comes, leaves the
-- user's count of the month one higher and within the limit; another user's count is not touched.
quota_step :
    (u v : ℕ) (x x' : Ext) (w : World) (l : Log) {m limit n : ℕ}
    → (check_api_quota u x w).0 ≡ ok (true, m)
    → quota_row w.db u m ≡ some (some limit, n)
    → (count_request u m x' (record w { log = l })).0 ≡ ok tt
    → u ≢ v
    → let db' = (count_request u m x' (record w { log = l })).1.db in
      (request_count db' u m ≡ request_count w.db u m + 1)
      × (request_count db' u m ≤ limit)
      × (request_count db' v m ≡ request_count w.db v m)
unfolding check_api_quota count_request
quota_step u v x x' w l {m = m} {limit = limit} {n = n} c r e ne =
    let same = request_count-incremented w.db u m in
    let other = request_count-incremented_other w.db u v m ne in
    let counted = quota_row_count w.db u m {row = (some limit, n)} r in
    ground (arith, same, other, counted)
