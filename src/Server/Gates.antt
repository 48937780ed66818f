-- ===== src/Server/Gates.antt =====
-- cmd/server/main.go: the routes of administrators, for a user who is none.
use nexium_storage_back.Shared.{
  ℕ, ◌≡◌, Bool, true, false, String, Option, none, some, ◌==◌, find_by, arith, forbidden, err,
  if◌then◌else◌,
}
use nexium_storage_back.World.{User, Action, Ext, World}
use nexium_storage_back.Middleware.{
  Context, authenticate, require_admin, require_super_admin, require_role, bearer_token,
}
use nexium_storage_back.Server.Routes.{admin_route, super_admin_route}

abbrev lacks : (User → Bool) → Option User → Bool
lacks role none = true
lacks role (some u) = (if role u then false else true)

-- Whatever the route does, a request whose token names a user who is not a super administrator, or no
-- user of the table, changes no table on the routes of super administrators, and is refused.
pub super_admin_route-Refused {ℓ} :
    {A : Type ℓ} (secret header token subject : String) (handler : Context → Action A) (x : Ext)
    (w : World) (id : ℕ)
    → bearer_token header ≡ some token
    → x.jwt_subject secret token ≡ some subject
    → x.parse_uuid subject ≡ some id
    → lacks (λ u. u.is_super_admin) (find_by (λ (u : User). u.id == id) w.db.users) ≡ true
    → ((super_admin_route secret header handler x w).0 ≡ err forbidden)
      × ((super_admin_route secret header handler x w).1.db ≡ w.db)
unfolding super_admin_route admin_route authenticate require_admin require_super_admin require_role
super_admin_route-Refused secret header token subject handler x w id t s p h = ground arith
