-- ===== src/Auth/Sessions.antt =====
-- The refresh tokens of internal/auth/service.go: who gets a pair of tokens, and how often.
use nexium_storage_back.Shared.{
  ℕ, ◌+◌, ◌<◌, ◌≢◌, IsKeyed, find_by-ne, ◌≡◌, refl, Bool, true, false, String, Option, none, some,
  List, [], ◌∷◌, ◌==◌, ◌=s=◌, find_by, find_by_sound, any_by, delete_where, arith, Option-cases,
  inl, inr, subst, sym, not, ◌&&◌, any_by-delete_where, unauthorized, Result, ok, err,
}
use text.Mathlib.TextPositions.{eq_refl}
use nexium_storage_back.World.{User, RefreshToken, Log, sql, clock_read, random_read, Ext, World}
use nexium_storage_back.Server.{get_user_by_id}
use nexium_storage_back.Auth.Refinement.{
  Statement, saves, deletes, deletes_of, execute, execute_all,
}
use nexium_storage_back.Auth.{
  is_token_of, delete_user_tokens, Service, LoginRequest, TokenPair, Profile, is_live, has_hash,
  has_email, has_id, get_refresh_token, delete_refresh_token, save_refresh_token, generate_token,
  issue_token_pair, refresh, login, get_user_by_email, verify_password, normalised,
}

abbrev NoTokenOf : String → World → Type 0
NoTokenOf hash w = any_by (has_hash hash) w.db.refresh_tokens ≡ false

any_by-delete_where_other :
    (p q : RefreshToken → Bool) (toks : List RefreshToken)
    → any_by p toks ≡ false
    → any_by p (delete_where q toks) ≡ false
unfolding any_by delete_where
any_by-delete_where_other p q [] h = refl
any_by-delete_where_other p q (y ∷ toks) h = ground (arith, any_by-delete_where_other p q toks)

no_live :
    (hash : String) (t : ℕ) (toks : List RefreshToken)
    → any_by (has_hash hash) toks ≡ false
    → find_by (is_live hash t) toks ≡ none
unfolding find_by any_by
no_live hash t [] h = refl
no_live hash t (y ∷ toks) h = ground (arith, no_live hash t toks)

-- No statement of the history saves a token of the hash.
abbrev pub saves_other : String → List (Ext × Statement) → Bool
saves_other hash [] = true
saves_other hash ((x, saves u h t) ∷ cs) = not (h =s= hash) && saves_other hash cs
saves_other hash ((x, deletes h) ∷ cs) = saves_other hash cs
saves_other hash ((x, deletes_of u) ∷ cs) = saves_other hash cs

execute-NoTokenOf :
    (hash : String) (x : Ext) (st : Statement) (w : World)
    → saves_other hash ((x, st) ∷ []) ≡ true
    → NoTokenOf hash w
    → NoTokenOf hash (execute st x w).1
unfolding execute save_refresh_token delete_refresh_token delete_user_tokens any_by
execute-NoTokenOf hash x (saves u h t) w other gone = ground arith
execute-NoTokenOf hash x (deletes h) w other gone =
    ground (arith, any_by-delete_where_other (has_hash hash) (has_hash h) w.db.refresh_tokens gone)
execute-NoTokenOf hash x (deletes_of u) w other gone =
    ground
      (arith, any_by-delete_where_other (has_hash hash) (is_token_of u) w.db.refresh_tokens gone)

saves_other-cons :
    (hash : String) (x : Ext) (st : Statement) (cs : List (Ext × Statement))
    → saves_other hash ((x, st) ∷ cs) ≡ true
    → (saves_other hash ((x, st) ∷ []) ≡ true) × (saves_other hash cs ≡ true)
saves_other-cons hash x (saves u h t) cs e = ground arith
saves_other-cons hash x (deletes h) cs e = (refl, e)
saves_other-cons hash x (deletes_of u) cs e = (refl, e)

execute_all-NoTokenOf :
    (hash : String) (cs : List (Ext × Statement)) (w : World)
    → saves_other hash cs ≡ true
    → NoTokenOf hash w
    → NoTokenOf hash (execute_all cs w)
unfolding execute_all
execute_all-NoTokenOf hash [] w other gone = gone
execute_all-NoTokenOf hash ((x, st) ∷ cs) w other gone =
    let (first, rest) = saves_other-cons hash x st cs other in
    execute_all-NoTokenOf hash cs (execute st x w).1 rest (execute-NoTokenOf hash x st w first gone)

refresh-NoTokenOf :
    (s : Service) (raw : String) (x : Ext) (w : World) {pair : TokenPair}
    → (refresh s raw x w).0 ≡ ok pair
    → (x.sha256_hex pair.refresh_token =s= x.sha256_hex raw) ≡ false
    → NoTokenOf (x.sha256_hex raw) (refresh s raw x w).1
unfolding refresh get_refresh_token delete_refresh_token issue_token_pair generate_token
    save_refresh_token any_by get_user_by_id
refresh-NoTokenOf s raw x w h ne =
    ground (arith, any_by-delete_where (has_hash (x.sha256_hex raw)) w.db.refresh_tokens)

refresh_unknown :
    (s : Service) (raw : String) (x : Ext) (w : World)
    → NoTokenOf (x.sha256_hex raw) w
    → (refresh s raw x w).0 ≡ err unauthorized
unfolding refresh get_refresh_token
refresh_unknown s raw x w gone =
    let t = x.clock (sql "auth.GetRefreshToken" ∷ w.log) in
    ground (arith, no_live (x.sha256_hex raw) t w.db.refresh_tokens gone)

-- A refresh token is good for one pair: after a refresh that returns, and after any later statements on
-- the refresh tokens, some of which may fail, the same token is refused, whatever the outside answers,
-- as long as neither the new token nor one that those statements save has the same hash.
pub refresh_once :
    (s : Service) (raw : String) (x x' : Ext) (w : World) (cs : List (Ext × Statement)) (l : Log)
    {pair : TokenPair}
    → (refresh s raw x w).0 ≡ ok pair
    → (x.sha256_hex pair.refresh_token =s= x.sha256_hex raw) ≡ false
    → saves_other (x.sha256_hex raw) cs ≡ true
    → x'.sha256_hex raw ≡ x.sha256_hex raw
    → let w' = execute_all cs (refresh s raw x w).1 in
      (refresh s raw x' (record w' { log = l })).0 ≡ err unauthorized
refresh_once s raw x x' w cs l h ne other same =
    let w1 = (refresh s raw x w).1 in
    let w' : World = record (execute_all cs w1) { log = l } in
    let gone =
      execute_all-NoTokenOf (x.sha256_hex raw) cs w1 other (refresh-NoTokenOf s raw x w h ne) in
    refresh_unknown s raw x' w' (subst (λ hash. NoTokenOf hash w') (sym same) gone)

-- A refresh that returns has found a token with the hash that has not expired, and the pair is for
-- the user of that token.
refresh-NeedsToken :
    (s : Service) (raw : String) (x : Ext) (w : World) {pair : TokenPair}
    → (refresh s raw x w).0 ≡ ok pair
    → ((elim (find_by
            (is_live (x.sha256_hex raw) (x.clock (sql "auth.GetRefreshToken" ∷ w.log)))
            w.db.refresh_tokens)
          as (λ _. Option ℕ) [ none ↦ none | some tok ↦ some tok.user_id ])
        ≡ some pair.profile.user.id)
      × (find_by (has_id pair.profile.user.id) w.db.users ≡ some pair.profile.user)
unfolding refresh get_refresh_token delete_refresh_token issue_token_pair generate_token
    save_refresh_token get_user_by_id
refresh-NeedsToken s raw x w {pair = pair} h =
    let t = x.clock (sql "auth.GetRefreshToken" ∷ w.log) in
    elim (Option-cases (find_by (is_live (x.sha256_hex raw) t) w.db.refresh_tokens)) [
      | inl e ↦ ground arith
      | inr (tok, e) ↦
          ground (arith, find_by_sound (has_id tok.user_id) w.db.users {x = pair.profile.user})
    ]

-- A login that returns is for the user with the e-mail, who is verified and whose password it is.
pub login-NeedsPassword :
    (s : Service) (req : LoginRequest) (x : Ext) (w : World) {pair : TokenPair}
    → (login s req x w).0 ≡ ok pair
    → let u = pair.profile.user in
      (find_by (has_email (normalised s req.email)) w.db.users ≡ some u)
      × (u.is_verified ≡ true)
      × (verify_password s req.password u.password_hash ≡ true)
      × (any_by (has_hash (x.sha256_hex pair.refresh_token)) (login s req x w).1.db.refresh_tokens
          ≡ true)
unfolding login get_user_by_email issue_token_pair generate_token save_refresh_token any_by
login-NeedsPassword s req x w {pair = pair} h =
    ground (arith, eq_refl (x.sha256_hex pair.refresh_token))

-- The row that a query finds by another column is the one that its key finds.
find_by-key :
    (q : User → Bool) (us : List User) {u : User}
    → IsKeyed (λ (v : User). v.id) us
    → find_by q us ≡ some u
    → find_by (has_id u.id) us ≡ some u
unfolding find_by
find_by-key q [] keyed e = cc
find_by-key q (v ∷ us) {u = u} keyed e = ground (
  arith,
  find_by-key q us {u = u} keyed.1,
  find_by-ne (λ (y : User). y.id) (λ (y : User). y.id == v.id) q us {x = u} keyed.0,
)

abbrev pub profile_of : Result TokenPair → Option Profile
profile_of (ok p) = some p.profile
profile_of (err e) = none

-- The log of a refresh, up to the reading of the clock.
abbrev refresh_log : Log → Log
refresh_log l =
    clock_read
    ∷ sql "auth.GetUserByID"
    ∷ sql "auth.DeleteRefreshToken"
    ∷ sql "auth.GetRefreshToken"
    ∷ l

-- The session that a login begins goes on: until the refresh token expires, a refresh by it returns
-- a pair for the same user, where no call fails, tokens can be signed and the new token is new.
pub login_lets_refresh :
    (s : Service) (req : LoginRequest) (x x' : Ext) (w : World) (l : Log) {pair : TokenPair}
    → IsKeyed (λ (u : User). u.id) w.db.users
    → (login s req x w).0 ≡ ok pair
    → x'.sha256_hex pair.refresh_token ≡ x.sha256_hex pair.refresh_token
    → ((l' : Log) → x'.fails l' ≡ false)
    → x'.clock (sql "auth.GetRefreshToken" ∷ l)
      < x.clock (clock_read ∷ sql "auth.GetUserByEmail" ∷ w.log) + s.jwt_refresh_ttl
    → ((sub : String) (iat exp : ℕ) → s.sign s.jwt_secret sub iat exp ≢ none)
    → let w' = (login s req x w).1 in
      any_by
          (has_hash (x'.sha256_hex (x'.random (random_read ∷ refresh_log l))))
          w'.db.refresh_tokens
        ≡ false
      → profile_of (refresh s pair.refresh_token x' (record w' { log = l })).0 ≡ some pair.profile
unfolding login get_user_by_email refresh get_refresh_token delete_refresh_token issue_token_pair
    generate_token save_refresh_token get_user_by_id find_by
login_lets_refresh s req x x' w l {pair = pair} keyed h same up alive signs fresh =
    let u = pair.profile.user in
    let hash = x.sha256_hex pair.refresh_token in
    let t = x'.clock (refresh_log l) in
    ground (
      arith,
      find_by-key (has_email (normalised s req.email)) w.db.users {u = u} keyed,
      eq_refl hash,
      any_by-delete_where_other (has_hash (x'.sha256_hex (x'.random (random_read ∷ refresh_log l))))
          (has_hash hash) (login s req x w).1.db.refresh_tokens fresh,
      signs (x'.uuid_string u.id) t (t + s.jwt_access_ttl),
      up (sql "auth.GetRefreshToken" ∷ l),
      up (sql "auth.DeleteRefreshToken" ∷ sql "auth.GetRefreshToken" ∷ l),
      up (sql "auth.GetUserByID" ∷ sql "auth.DeleteRefreshToken" ∷ sql "auth.GetRefreshToken" ∷ l),
      up (random_read ∷ refresh_log l),
      up (sql "auth.SaveRefreshToken" ∷ random_read ∷ refresh_log l),
    )
