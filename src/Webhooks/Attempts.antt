-- ===== src/Webhooks/Attempts.antt =====
-- One delivery of internal/webhooks/service.go: its attempts and what is recorded of it.
use nexium_storage_back.Shared.{
  ℕ, ◌+◌, ◌≤◌, ◌≡◌, Bool, true, false, String, Option, none, some, [], ◌∷◌, ltb, ◌==◌, ◌||◌, not,
  if◌then◌else◌, arith, Result, ok, err,
}
use nexium_storage_back.World.{Event, Log, http_post, Ext, World}
use nexium_storage_back.Webhooks.Delivery.{Outcome, no_outcome, attempt_from}

-- The requests that the log holds.
abbrev is_post : Event → Bool
is_post (http_post url sig payload) = true
is_post e = false

abbrev posts : Log → ℕ
posts [] = 0
posts (e ∷ l) = (if is_post e then 1 else 0) + posts l

abbrev is_below_300 : Option ℕ → Bool
is_below_300 none = false
is_below_300 (some code) = ltb code 300

abbrev is_some : Option ℕ → Bool
is_some none = false
is_some (some t) = true

-- What the loop ends with: between one and three attempts, each one request; a success was a
-- status below 300 and is dated; a failure has used up all three attempts.
pub record IsOutcome (o : Outcome) (before after : Log) : Type 0 where
  pub some_attempt : 1 ≤ o.attempts
  pub at_most_three : o.attempts ≤ 3
  pub one_post_each : posts after ≡ posts before + o.attempts
  pub success_is_dated : is_some o.delivered_at ≡ o.success
  pub success_status : (not o.success || is_below_300 o.status_code) ≡ true
  pub failure_tried_all : (o.success || o.attempts == 3) ≡ true

abbrev pub Delivered : Result Outcome → Log → Log → Type 0
Delivered (ok o) before after = IsOutcome o before after
Delivered (err e) before after = ⊥

-- The loop of `deliver` always returns, and its result is as `IsOutcome` says, for every behaviour
-- of the receiver; the tables are not touched.
pub attempts_outcome :
    (url sig payload : String) (x : Ext) (w : World)
    → let (r, w') = attempt_from 3 1 url sig payload no_outcome x w in
      Delivered r w.log w'.log × (w'.db ≡ w.db)
unfolding attempt_from
attempts_outcome url sig payload x w = ground arith
