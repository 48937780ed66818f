-- ===== src/Server/Promotion.antt =====
-- cmd/server/main.go: the account that the start of the server makes a super administrator.
use nexium_storage_back.Shared.{
  ℕ, ◌≡◌, Bool, false, String, some, List, [], ◌∷◌, ◌==◌, ◌=s=◌, find_by, arith, ok, IsKeyed,
  find_by-ne, update_where,
}
use nexium_storage_back.World.{User, Log, sql, Action, Ext, World, ◌>>◌}
use nexium_storage_back.Middleware.{Context, require_admin, require_super_admin, require_role}
use nexium_storage_back.Server.Routes.{promoted, promote_super_admin}

module _ (email : String) where
  abbrev has : User → Bool
  has u = u.email =s= email

  holder :
      (us : List User) {u : User}
      → IsKeyed (λ (v : User). v.id) us
      → find_by has us ≡ some u
      → find_by (λ (v : User). v.id == u.id) (update_where has promoted us) ≡ some (promoted u)
  unfolding find_by update_where
  holder [] keyed e = cc
  holder (v ∷ us) {u = u} keyed e = ground (
    arith,
    holder us {u = u} keyed.1,
    find_by-ne (λ (y : User). y.id) (λ (y : User). y.id == v.id) has us {x = u} keyed.0,
  )

  other :
      (us : List User) {v : User} (id : ℕ)
      → find_by (λ (y : User). y.id == id) us ≡ some v
      → has v ≡ false
      → find_by (λ (y : User). y.id == id) (update_where has promoted us) ≡ some v
  unfolding find_by update_where
  other [] id e h = cc
  other (y ∷ us) {v = v} id e h = ground (arith, other us {v = v} id)

-- The two guards of a route of super administrators, one after the other.
abbrev pub both_guards : Context → Action (Unit {0})
both_guards c = require_admin c >> require_super_admin c

-- After a start whose statement returns, the account of the configured email, verified or not, passes the
-- guard of the administrators and the guard of the super administrators behind it, where their queries do
-- not fail, and the row of an account with another email is the same as before.
pub promote_super_admin-enters :
    (email : String) (c : Context) (x x' : Ext) (w : World) (l : Log) (id : ℕ) {u v : User}
    → (email =s= "") ≡ false
    → IsKeyed (λ (y : User). y.id) w.db.users
    → find_by (λ (y : User). y.email =s= email) w.db.users ≡ some u
    → find_by (λ (y : User). y.id == id) w.db.users ≡ some v
    → (v.email =s= email) ≡ false
    → x.fails (sql "main.promoteSuperAdmin" ∷ w.log) ≡ false
    → x'.fails (sql "RequireAdmin" ∷ l) ≡ false
    → x'.fails (sql "RequireSuperAdmin" ∷ sql "RequireAdmin" ∷ l) ≡ false
    → let w' : World = record (promote_super_admin email x w).1 { log = l } in
      let c' = record c { user_id = some u.id } in
      ((both_guards c' x' w').0 ≡ ok tt) × (find_by (λ (y : User). y.id == id) w'.db.users ≡ some v)
unfolding promote_super_admin require_admin require_super_admin require_role
promote_super_admin-enters email c x x' w l id {u = u} {v = v} named keyed mine other_id ne up admin
      reads =
    (
      ground (arith, holder email w.db.users {u = u} keyed mine),
      ground (arith, other email w.db.users {v = v} id other_id ne),
    )
