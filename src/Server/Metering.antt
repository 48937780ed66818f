-- ===== src/Server/Metering.antt =====
-- cmd/server/main.go and pkg/middleware/api_quota.go: how many requests by API key are handled in a month.
use nexium_storage_back.Shared.{
  ℕ, zero, suc, Error, api, subst, sym, Bool-cases, inl, inr, ◌⊎◌, ◌≤◌, ◌<◌, ◌∙◌, ◌+◌, ◌-◌, ◌≡◌,
  refl, true, false, Option, none, some, ◌∷◌, ◌==◌, leb, if◌then◌else◌, find_by-update_where, arith,
  Result, ok, err, List, [], ◌++◌, length,
}
use nexium_storage_back.World.{User, Log, clock_read, sql, Action, Ext, World}
use nexium_storage_back.Calendar.{year_month}
use nexium_storage_back.Middleware.{
  Context, quota_row, check_api_quota, count_request, request_limit, request_count,
}
use nexium_storage_back.Middleware.Guards.{request_count-incremented, quota_row_count}
use nexium_storage_back.Server.Routes.{
  touch, track_activity, enforce_api_quota, Increment, write_increment,
}

-- What happens to the quota of a user: a request, or a goroutine that writes the increment that has
-- waited longest. The increments of one user in one month are the same statement.
pub data Step : Type 0 where
  arrival : Step
  writing : Step

-- The increments that wait, and the world.
abbrev Metered : Type 0
Metered = List Increment × World

abbrev started {ℓ} : {A : Type ℓ} → Result (Result A × Option Increment) → List Increment
started (ok (r, none)) = []
started (ok (r, some job)) = job ∷ []
started (err e) = []

abbrev passed {ℓ} : {A : Type ℓ} → Result A → ℕ
passed (ok r) = 1
passed (err e) = 0

-- How many of the requests the quota lets through to the handler, with what waits at the end.
unfoldable pub metered {ℓ} :
    {A : Type ℓ} → List Step → (Context → Action A) → Context → Ext → Metered → ℕ × Metered
metered [] handler c x s = (0, s)
metered (arrival ∷ steps) handler c x (jobs, w) =
    let (r, w') = enforce_api_quota (track_activity handler) c x w in
    let (n, s) = metered steps handler c x (jobs ++ started r, w') in (passed r + n, s)
metered (writing ∷ steps) handler c x ([], w) = metered steps handler c x ([], w)
metered (writing ∷ steps) handler c x (job ∷ jobs, w) =
    metered steps handler c x (jobs, (write_increment job x w).1)

-- `k` requests, each checked when the increment of the one before is written.
unfoldable pub settled : ℕ → List Step
settled zero = []
settled (suc k) = arrival ∷ writing ∷ settled k

quota_row-touch :
    (u m : ℕ) (x : Ext) (w : World) → quota_row (touch (some u) x w).1.db u m ≡ quota_row w.db u m
unfolding quota_row touch request_limit request_count
quota_row-touch u m x w =
    let seen = λ (v : User). record v {
      last_active_at = some (x.clock (sql "TrackActivity" ∷ w.log));
      inactivity_warned_at = none;
    } in
    let found = find_by-update_where (λ (v : User). v.id == u) seen w.db.users (λ y. refl) in
    ground (arith, found)

quota_row-count_request :
    (u m : ℕ) (x : Ext) (w : World) {limit : Option ℕ} {n : ℕ}
    → quota_row w.db u m ≡ some (limit, n)
    → x.fails (sql "EnforceAPIQuota.increment" ∷ w.log) ≡ false
    → quota_row (count_request u m x w).1.db u m ≡ some (limit, suc n)
unfolding quota_row count_request request_limit
quota_row-count_request u m x w {limit} {n} e up =
    ground
      (arith, request_count-incremented w.db u m, quota_row_count w.db u m {row = (limit, n)} e)

module _ {ℓ} {A : Type ℓ} (handler : Context → Action A) (c : Context) (x : Ext) (u m limit : ℕ)
    (user : c.user_id ≡ some u)
    (keeps : (w : World) → quota_row (handler c x w).1.db u m ≡ quota_row w.db u m)
    (month : (l : Log) → year_month (x.clock l) ≡ m)
    (reads : (l : Log) → x.fails (sql "EnforceAPIQuota" ∷ l) ≡ false)
    (writes : (l : Log) → x.fails (sql "EnforceAPIQuota.increment" ∷ l) ≡ false) where
  abbrev after : World → World
  after w = (enforce_api_quota (track_activity handler) c x w).1

  tracked_world :
      (w : World) → (track_activity handler c x w).1 ≡ (touch (some u) x (handler c x w).1).1
  unfolding track_activity touch
  tracked_world w = rw user (ground arith)

  tracked_keeps :
      (w : World) → quota_row (track_activity handler c x w).1.db u m ≡ quota_row w.db u m
  tracked_keeps w = rw (tracked_world w) (quota_row-touch u m x (handler c x w).1 ∙ keeps w)

  abbrev State : ℕ → World → Type 0
  State n w = quota_row w.db u m ≡ some (some limit, n)

  check_keeps : (w : World) → (check_api_quota u x w).1.db ≡ w.db
  unfolding check_api_quota
  check_keeps w = ground arith

  check_at :
      (n : ℕ) (w : World)
      → State n w
      → limit ≤ n
      → (check_api_quota u x w).0 ≡ err (api 429 "monthly API quota exceeded — upgrade your plan")
  unfolding check_api_quota
  check_at n w s h =
      let l = clock_read ∷ w.log in
      let s' = subst (λ k. quota_row w.db u k ≡ some (some limit, n)) (sym (month l)) s in
      ground (arith, s', reads l)

  check_below :
      (n : ℕ) (w : World) → State n w → n < limit → (check_api_quota u x w).0 ≡ ok (true, m)
  unfolding check_api_quota
  check_below n w s h =
      let l = clock_read ∷ w.log in
      let s' = subst (λ k. quota_row w.db u k ≡ some (some limit, n)) (sym (month l)) s in
      ground (arith, s', reads l, month l)

  after_err :
      (w : World) {e : Error}
      → (check_api_quota u x w).0 ≡ err e
      → enforce_api_quota (track_activity handler) c x w ≡ (err e, (check_api_quota u x w).1)
  unfolding enforce_api_quota
  after_err w h = ground (arith, user)

  after_ok :
      (w : World)
      → (check_api_quota u x w).0 ≡ ok (true, m)
      → let handled = track_activity handler c x (check_api_quota u x w).1 in
        enforce_api_quota (track_activity handler) c x w ≡ (ok (handled.0, some (u, m)), handled.1)
  unfolding enforce_api_quota
  after_ok w h = ground (arith, user)

  -- A request at the limit is refused, and changes nothing; one below it is handled, and an increment
  -- of the count is started.
  at_limit : (n : ℕ) (w : World) → State n w → limit ≤ n → State n (after w)
  at_limit n w s h =
      let s' : State n (check_api_quota u x w).1 = rw (check_keeps w) s in
      subst (λ r. State n r.1) (sym (after_err w (check_at n w s h))) s'

  below_limit : (n : ℕ) (w : World) → State n w → n < limit → State n (after w)
  below_limit n w s h =
      let checked = (check_api_quota u x w).1 in
      let s' : State n (track_activity handler c x checked).1 =
        tracked_keeps checked ∙ (rw (check_keeps w) s) in
      subst (λ r. State n r.1) (sym (after_ok w (check_below n w s h))) s'

  written : (n : ℕ) (w : World) → State n w → State (suc n) (write_increment (u, m) x w).1
  unfolding write_increment
  written n w s = ground (arith, quota_row-count_request u m x w s (writes w.log))

  -- Every answer of the middleware, with what it starts.
  request_cases :
      (n : ℕ) (w : World)
      → State n w
      → let r = (enforce_api_quota (track_activity handler) c x w).0 in
        ((passed r ≡ 0) × (started r ≡ [])) ⊎ ((passed r ≡ 1) × (started r ≡ (u, m) ∷ []))
  request_cases n w s = elim (Bool-cases (leb limit n)) [
    | inl h ↦ inl (ground (arith, after_err w (check_at n w s (ground arith))))
    | inr h ↦ inr (ground (arith, after_ok w (check_below n w s (ground arith))))
  ]

  copies : ℕ → List Increment
  copies zero = []
  copies (suc p) = (u, m) ∷ copies p

  copies-snoc : (p : ℕ) → copies p ++ ((u, m) ∷ []) ≡ copies (suc p)
  unfolding copies
  copies-snoc zero = refl
  copies-snoc (suc p) = ground (arith, copies-snoc p)

  length-copies : (p : ℕ) → length (copies p) ≡ p
  unfolding copies
  length-copies zero = refl
  length-copies (suc p) = ground (arith, length-copies p)

  append_nil : (jobs : List Increment) → jobs ++ [] ≡ jobs
  append_nil [] = refl
  append_nil (job ∷ jobs) = ground (arith, append_nil jobs)

  abbrev run : List Step → ℕ → World → ℕ × Metered
  run steps p w = metered steps handler c x (copies p, w)

  request_at :
      (steps : List Step) (p n : ℕ) (w : World)
      → State n w
      → limit ≤ n
      → run (arrival ∷ steps) p w ≡ run steps p (after w)
  unfolding metered
  request_at steps p n w s h =
      let e = after_err w (check_at n w s h) in ground (arith, e, append_nil (copies p))

  request_below :
      (steps : List Step) (p n : ℕ) (w : World)
      → State n w
      → n < limit
      → run (arrival ∷ steps) p w
        ≡ (suc (run steps (suc p) (after w)).0, (run steps (suc p) (after w)).1)
  unfolding metered
  request_below steps p n w s h =
      let e = after_ok w (check_below n w s h) in ground (arith, e, copies-snoc p)

  run_nil : (p : ℕ) (w : World) → run [] p w ≡ (0, (copies p, w))
  unfolding metered
  run_nil p w = refl

  write_none : (steps : List Step) (w : World) → run (writing ∷ steps) 0 w ≡ run steps 0 w
  unfolding metered copies
  write_none steps w = refl

  write_some :
      (steps : List Step) (p : ℕ) (w : World)
      → run (writing ∷ steps) (suc p) w ≡ run steps p (write_increment (u, m) x w).1
  unfolding metered copies
  write_some steps p w = refl

  -- What is in the table and what waits grow together by the requests that are handled.
  Conserved : ℕ × Metered → ℕ → Type 0
  Conserved (k, (jobs, w)) n = request_count w.db u m + length jobs ≡ n + k

  conserved :
      (steps : List Step) (p n : ℕ) (w : World) → State n w → Conserved (run steps p w) (n + p)
  unfolding Conserved
  conserved [] p n w s =
      subst (λ r. Conserved r (n + p)) (sym (run_nil p w))
        (ground (arith, quota_row_count w.db u m {row = (some limit, n)} s, length-copies p))
  conserved (arrival ∷ steps) p n w s = elim (Bool-cases (leb limit n)) [
    | inl h ↦
        let le : limit ≤ n = ground arith in
        subst (λ r. Conserved r (n + p)) (sym (request_at steps p n w s le))
          (conserved steps p n (after w) (at_limit n w s le))
    | inr h ↦
        let lt : n < limit = ground arith in
        let rest = conserved steps (suc p) n (after w) (below_limit n w s lt) in
        subst (λ r. Conserved r (n + p)) (sym (request_below steps p n w s lt)) (omega arith)
  ]
  conserved (writing ∷ steps) zero n w s =
      subst (λ r. Conserved r (n + 0)) (sym (write_none steps w)) (conserved steps 0 n w s)
  conserved (writing ∷ steps) (suc p) n w s =
      let rest = conserved steps p (suc n) (write_increment (u, m) x w).1 (written n w s) in
      subst (λ r. Conserved r (n + suc p)) (sym (write_some steps p w)) (omega arith)

  settled_lem :
      (k n : ℕ) (w : World)
      → State n w
      → (run (settled k) 0 w).0 ≡ (if leb k (limit - n) then k else limit - n)
  unfolding settled
  settled_lem zero n w s = rw (run_nil 0 w) (ground arith)
  settled_lem (suc k) n w s = elim (Bool-cases (leb limit n)) [
    | inl h ↦
        let le : limit ≤ n = ground arith in
        rw (request_at (writing ∷ settled k) 0 n w s le) (
          rw (write_none (settled k) (after w))
            (ground (arith, settled_lem k n (after w) (at_limit n w s le))))
    | inr h ↦
        let lt : n < limit = ground arith in
        let w' = (write_increment (u, m) x (after w)).1 in
        let s' : State (suc n) w' = written n (after w) (below_limit n w s lt) in
        rw (request_below (writing ∷ settled k) 0 n w s lt)
          (rw (write_some (settled k) 0 (after w)) (ground (arith, settled_lem k (suc n) w' s')))
  ]

-- Requests by API key of one user in one month, in any order with the goroutines that write their
-- increments: the count in the table and the increments that still wait have grown together by
-- exactly the requests that were let through to the handler. Where each increment is written before
-- the next of `k` requests is checked, exactly as many are let through as are left of the limit, or
-- all of them. Both where the statements of the quota do not fail, and the handler keeps the user's
-- limit and count.
pub handled_exactly {ℓ} :
    {A : Type ℓ} (handler : Context → Action A) (c : Context) (x : Ext) (w : World)
    (u m limit n k : ℕ) (steps : List Step)
    → c.user_id ≡ some u
    → quota_row w.db u m ≡ some (some limit, n)
    → ((v : World) → quota_row (handler c x v).1.db u m ≡ quota_row v.db u m)
    → ((l : Log) → year_month (x.clock l) ≡ m)
    → ((l : Log) → x.fails (sql "EnforceAPIQuota" ∷ l) ≡ false)
    → ((l : Log) → x.fails (sql "EnforceAPIQuota.increment" ∷ l) ≡ false)
    → let (passing, (jobs, w')) = metered steps handler c x ([], w) in
      (request_count w'.db u m + length jobs ≡ n + passing)
      × ((metered (settled k) handler c x ([], w)).0 ≡ (if leb k (limit - n) then k else limit - n))
unfolding copies Conserved
handled_exactly handler c x w u m limit n k steps user row keeps month reads writes = (
  ground (arith, conserved handler c x u m limit user keeps month reads writes steps 0 n w row),
  settled_lem handler c x u m limit user keeps month reads writes k n w row,
)
