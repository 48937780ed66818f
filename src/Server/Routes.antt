-- ===== src/Server/Routes.antt =====
-- cmd/server/main.go: what a request goes through before and after its handler. The UPDATE that
-- `TrackActivity` starts in a goroutine is run at the place where it is started; the increment that
-- `EnforceAPIQuota` starts in one is handed on, since the check of a later request may come before it.
use nexium_storage_back.Shared.{
  ℕ, Bool, true, String, Option, none, some, [], if◌then◌else◌, ◌==◌, ◌=s=◌, update_where, api,
  Result, ok, err,
}
use nexium_storage_back.World.{
  User, Action, Ext, World, pure, raise, attempt, ignore, ◌>>=◌, ◌>>◌, exec, now,
}
use nexium_storage_back.Middleware.{
  Context, authenticate, authenticate_api_key, require_admin, require_super_admin, Windows,
  rate_limit_per_project, check_api_quota, count_request,
}

-- The promotion at the start: an error is logged only.
abbrev pub promoted : User → User
promoted u = record u { is_admin = true; is_super_admin = true; is_verified = true }

unfoldable pub promote_super_admin : String → Action (Unit {0})
promote_super_admin email =
    if email =s= ""
    then pure tt
    else ignore (
        exec "main.promoteSuperAdmin" (λ _ db. record db {
          users = update_where (λ (u : User). u.email =s= email) promoted db.users;
        }))

abbrev returned {ℓ} : {A : Type ℓ} → Result A → Action A
returned (ok a) = pure a
returned (err e) = raise e

-- `TrackActivity`
unfoldable pub touch : Option ℕ → Action (Unit {0})
touch none = pure tt
touch (some id) = ignore (
    exec "TrackActivity" (λ t db. record db {
      users =
          update_where (λ (u : User). u.id == id)
            (λ u. record u { last_active_at = some t; inactivity_warned_at = none }) db.users;
    }))

unfoldable pub track_activity {ℓ} : {A : Type ℓ} → (Context → Action A) → Context → Action A
track_activity handler c = do r ← attempt (handler c); touch c.user_id; returned r

-- An increment that a goroutine is to write: the user, and the month.
abbrev pub Increment : Type 0
Increment = ℕ × ℕ

-- `EnforceAPIQuota`: an error of its own, or what the handler answers and the increment that is
-- started after it, which is not waited for.
unfoldable pub enforce_api_quota {ℓ} :
    {A : Type ℓ} → (Context → Action A) → Context → Action (Result A × Option Increment)
enforce_api_quota handler c = elim c.user_id [
  | none ↦ (do r ← attempt (handler c); pure (r, none))
  | some user_id ↦ (do
    check ← check_api_quota user_id
    r ← attempt (handler c)
    pure (r, if check.0 then some (user_id, check.1) else none))
]

-- The body of the goroutine.
unfoldable pub write_increment : Increment → Action (Unit {0})
write_increment job = ignore (count_request job.0 job.1)

abbrev pub nobody : Context
nobody = record { user_id = none; project_id = none; allowed_bucket_ids = [] }

-- The answer of the limiter, and what follows if the request goes through.
abbrev pub let_through {ℓ} :
    {A : Type ℓ} → Windows × Bool → Action A → Ext → World → Windows × (Result A × World)
let_through (m, through) next x w =
    (m, if through then next x w else (err (api 429 "too many requests — slow down"), w))

-- `RateLimitPerProject(600, time.Minute)`, with the map of its windows.
unfoldable pub rate_limited {ℓ} :
    {A : Type ℓ}
    → (Context → Action A)
    → Context
    → Windows
    → Ext
    → World
    → Windows × (Result A × World)
rate_limited handler c m x w = elim c.project_id [
  | none ↦ (m, handler c x w)
  | some id ↦
      let w' = (now x w).1 in
      let_through (rate_limit_per_project 600 60 (some (x.uuid_string id)) (x.clock w'.log) m)
        (handler c) x w'
]

-- A route of the external API, with an API key in the header.
unfoldable pub ext_route {ℓ} :
    {A : Type ℓ}
    → String
    → (Context → Action A)
    → Windows
    → Ext
    → World
    → Windows × (Result (Result A × Option Increment) × World)
ext_route header handler m x w =
    let (r, w') = authenticate_api_key header nobody x w in
    elim r [
      | err e ↦ (m, (err e, w'))
      | ok c ↦ rate_limited (enforce_api_quota (track_activity handler)) c m x w'
    ]

-- A route for users, with a token in the header.
unfoldable user_route {ℓ} : {A : Type ℓ} → String → String → (Context → Action A) → Action A
user_route secret header handler = do
  c ← authenticate secret header nobody
  track_activity handler c

-- The routes of internal/admin/handler.go: for administrators, and for super administrators only.
unfoldable pub admin_route {ℓ} : {A : Type ℓ} → String → String → (Context → Action A) → Action A
admin_route secret header handler = do
  c ← authenticate secret header nobody
  require_admin c
  handler c

unfoldable pub super_admin_route {ℓ} :
    {A : Type ℓ} → String → String → (Context → Action A) → Action A
super_admin_route secret header handler =
    admin_route secret header (λ c. require_super_admin c >> handler c)
