-- ===== src/Auth/Refinement.antt =====
-- The table `refresh_tokens` of internal/auth/store.go as a map from hashes to sessions.
use text.Mathlib.TextEquality.{eq_iff}
use nexium_storage_back.Shared.{
  ℕ, ◌≡◌, ◌∙◌, ap, refl, fun_ext, String, Option, none, some, List, [], ◌∷◌, ◌==◌, ◌=s=◌, ltb,
  find_by, find_by-none, delete_where, arith, if◌then◌else◌, infra, Result, ok, err,
}
use nexium_storage_back.World.{RefreshToken, sql, Ext, World, Action}
use nexium_storage_back.Auth.Store.{
  owner_or_error, has_hash, is_token_of, is_live, save_refresh_token, get_refresh_token,
  delete_refresh_token, delete_user_tokens,
}
use nexium_storage_back.Auth.Unique.{HaveHashes, delete_where-HaveHashes, any_by-delete_where_other}

-- The user of the session, and the time at which it expires.
abbrev pub Sessions : Type 0
Sessions = String → Option (ℕ × ℕ)

abbrev session_of : Option RefreshToken → Option (ℕ × ℕ)
session_of none = none
session_of (some t) = some (t.user_id, t.expires_at)

abbrev pub view : List RefreshToken → Sessions
view toks hash = session_of (find_by (has_hash hash) toks)

pub data Statement : Type 0 where
  saves : ℕ → String → ℕ → Statement
  deletes : String → Statement
  deletes_of : ℕ → Statement

unfoldable pub execute : Statement → Action (Unit {0})
execute (saves user_id hash expires_at) = save_refresh_token user_id hash expires_at
execute (deletes hash) = delete_refresh_token hash
execute (deletes_of user_id) = delete_user_tokens user_id

abbrev kept_for : ℕ → Option (ℕ × ℕ) → Option (ℕ × ℕ)
kept_for user_id none = none
kept_for user_id (some e) = if e.0 == user_id then none else some e

-- What a statement does to the map.
abbrev pub step : Statement → Sessions → Sessions
step (saves user_id hash expires_at) m h = if hash =s= h then some (user_id, expires_at) else m h
step (deletes hash) m h = if hash =s= h then none else m h
step (deletes_of user_id) m h = kept_for user_id (m h)

-- Nothing, where the statement fails.
abbrev step_if : Result (Unit {0}) → Statement → Sessions → Sessions
step_if (ok a) st m = step st m
step_if (err e) st m = m

view-delete :
    (hash h : String) (toks : List RefreshToken)
    → view (delete_where (has_hash hash) toks) h ≡ step (deletes hash) (view toks) h
unfolding find_by delete_where
view-delete hash h [] = ground arith
view-delete hash h (t ∷ toks) =
    ground (
      arith,
      view-delete hash h toks,
      eq_iff hash h,
      eq_iff t.token_hash hash,
      eq_iff t.token_hash h,
    )

view-delete_of :
    (u : ℕ) (h : String) (toks : List RefreshToken)
    → HaveHashes toks
    → view (delete_where (is_token_of u) toks) h ≡ step (deletes_of u) (view toks) h
unfolding find_by delete_where
view-delete_of u h [] d = refl
view-delete_of u h (t ∷ toks) d = ground (
  arith,
  view-delete_of u h toks d.1,
  eq_iff t.token_hash h,
  find_by-none (has_hash t.token_hash) (delete_where (is_token_of u) toks),
  any_by-delete_where_other (has_hash t.token_hash) (is_token_of u) toks,
)

-- Each statement acts on the table as the map's operation does on the map, and one that fails
-- leaves the map alone.
view-execute :
    (st : Statement) (x : Ext) (w : World)
    → HaveHashes w.db.refresh_tokens
    → let (r, w') = execute st x w in
      view w'.db.refresh_tokens ≡ step_if r st (view w.db.refresh_tokens)
unfolding execute save_refresh_token delete_refresh_token delete_user_tokens find_by
view-execute (saves u hash e) x w d = fun_ext λ h. ground arith
view-execute (deletes hash) x w d =
    fun_ext λ h. ground (arith, view-delete hash h w.db.refresh_tokens)
view-execute (deletes_of u) x w d =
    fun_ext λ h. ground (arith, view-delete_of u h w.db.refresh_tokens d)

execute-HaveHashes :
    (st : Statement) (x : Ext) (w : World)
    → HaveHashes w.db.refresh_tokens
    → HaveHashes (execute st x w).1.db.refresh_tokens
unfolding execute save_refresh_token delete_refresh_token delete_user_tokens
execute-HaveHashes (saves u hash e) x w d = ground arith
execute-HaveHashes (deletes hash) x w d =
    ground (arith, delete_where-HaveHashes (has_hash hash) w.db.refresh_tokens)
execute-HaveHashes (deletes_of u) x w d =
    ground (arith, delete_where-HaveHashes (is_token_of u) w.db.refresh_tokens)

-- The user of the map's session, while it lasts.
abbrev pub live_user : ℕ → Option (ℕ × ℕ) → Result ℕ
live_user t none = err infra
live_user t (some e) = if ltb t e.1 then ok e.0 else err infra

get-is_live :
    (hash : String) (t : ℕ) (toks : List RefreshToken) (x : Ext) (w : World)
    → HaveHashes toks
    → owner_or_error (find_by (is_live hash t) toks) x w ≡ (live_user t (view toks hash), w)
unfolding find_by
get-is_live hash t [] x w d = refl
get-is_live hash t (y ∷ toks) x w d = ground (
  arith,
  get-is_live hash t toks x w d.1,
  eq_iff y.token_hash hash,
  find_by-none (has_hash y.token_hash) toks d.0,
)

-- A history of statements, each with what the outside answers.
unfoldable pub execute_all : List (Ext × Statement) → World → World
execute_all [] w = w
execute_all (c ∷ cs) w = execute_all cs (execute c.1 c.0 w).1

-- The map's operations of those statements that do not fail.
unfoldable pub replay : List (Ext × Statement) → World → Sessions → Sessions
replay [] w m = m
replay (c ∷ cs) w m = let (r, w') = execute c.1 c.0 w in replay cs w' (step_if r c.1 m)

view-execute_all :
    (cs : List (Ext × Statement)) (w : World)
    → HaveHashes w.db.refresh_tokens
    → let w' = execute_all cs w in
      (view w'.db.refresh_tokens ≡ replay cs w (view w.db.refresh_tokens))
      × HaveHashes w'.db.refresh_tokens
unfolding execute_all replay
view-execute_all [] w d = (refl, d)
view-execute_all ((x, st) ∷ cs) w d =
    let (r, w') = execute st x w in
    let (e, d') = view-execute_all cs w' (execute-HaveHashes st x w d) in
    (e ∙ ap (replay cs w') (view-execute st x w d), d')

-- After any history of statements on the refresh tokens, whatever fails in it, a token is looked up
-- as in the map that the statements that did not fail make of the map of the start: the user of the
-- hash, until the time at which the token expires.
pub get_refresh_token-replay :
    (cs : List (Ext × Statement)) (w : World) (hash : String) (x : Ext)
    → HaveHashes w.db.refresh_tokens
    → let w' = execute_all cs w in
      let l = sql "auth.GetRefreshToken" ∷ w'.log in
      (get_refresh_token hash x w').0 ≡ (
        if x.fails l
        then err infra
        else live_user (x.clock l) (replay cs w (view w.db.refresh_tokens) hash))
unfolding get_refresh_token
get_refresh_token-replay cs w hash x d =
    let w' = execute_all cs w in
    let l = sql "auth.GetRefreshToken" ∷ w'.log in
    let (e, d') = view-execute_all cs w d in
    ground (
      arith,
      get-is_live hash (x.clock l) w'.db.refresh_tokens x (record w' { log = l }) d',
      ap (λ m. m hash) e,
    )
