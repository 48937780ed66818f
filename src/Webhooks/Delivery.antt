-- ===== src/Webhooks/Delivery.antt =====
-- internal/webhooks/service.go: `deliver` and `Fire`.
use nexium_storage_back.Shared.{
  ℕ, zero, suc, ◌+◌, ◌*◌, Bool, true, false, String, Option, none, some, List, [], ◌∷◌, ◌=s=◌, ltb,
  any_by, Result, ok, err,
}
use nexium_storage_back.World.{
  Webhook, WebhookDelivery, Action, http_post, sleep, pure, attempt, ignore, when, ◌>>=◌, ◌>>◌, ask,
  read, now, new_uuid,
}
use nexium_storage_back.Webhooks.Store.{list_active_by_project, save_delivery}

abbrev max_attempts : ℕ
max_attempts = 3

-- The HMAC-SHA-256 of a body under a secret, in hexadecimal, and the body of an event as JSON.
pub record Encoding : Type 0 where
  pub hmac_hex : String → String → String
  -- id, event, project, time and data
  pub marshal : ℕ → String → ℕ → ℕ → String → String
  -- "sha256=" before the digest
  pub prefixed : String → String

unfoldable pub sign : Encoding → String → String → String
sign c payload secret = c.prefixed (c.hmac_hex payload secret)

-- The variables of the loop.
pub record Outcome : Type 0 where
  pub status_code : Option ℕ
  pub success : Bool
  pub error : Option (ℕ × ℕ)
  pub delivered_at : Option ℕ
  pub attempts : ℕ

abbrev pub no_outcome : Outcome
no_outcome = record {
  status_code = none;
  success = false;
  error = none;
  delivered_at = none;
  attempts = 0;
}

-- `sendHTTP`: the status code, which is 0 beside an error.
abbrev code_of : Result ℕ → ℕ
code_of (ok code) = code
code_of (err e) = 0

-- `err == nil && code < 300`
abbrev is_delivered : Result ℕ → Bool
is_delivered (ok code) = ltb code 300
is_delivered (err e) = false

-- The loop from the attempt on, with the number of rounds that are left. A call of `sendHTTP` is one
-- event: the request that it addresses to the URL, with the answer that the client of net/http ends
-- with. What the client sends to follow a redirect is not in the log, and a URL that is no URL is a call
-- that fails.
unfoldable pub attempt_from : ℕ → ℕ → String → String → String → Outcome → Action Outcome
attempt_from zero n url sig payload o = pure o
attempt_from (suc rounds) n url sig payload o = do
  answer ← attempt (ask (λ x l. x.http_status l) (http_post url sig payload))
  elim (is_delivered answer) [
    | true ↦ (do
      t ← now
      pure (record o {
        status_code = some (code_of answer);
        success = true;
        delivered_at = some t;
        attempts = n;
      }))
    | false ↦ (do
      when (ltb n max_attempts) (read (λ x l. tt) (sleep (n * n)))
      attempt_from rounds (n + 1) url sig payload (record o {
        status_code = some (code_of answer);
        error = some (n, code_of answer);
        attempts = n;
      }))
  ]

abbrev delivery_row : ℕ → ℕ → String → String → Outcome → WebhookDelivery
delivery_row id webhook_id event payload o = record {
  id = id;
  webhook_id = webhook_id;
  event = event;
  payload = payload;
  status_code = o.status_code;
  success = o.success;
  attempts = o.attempts;
  error = o.error;
  delivered_at = o.delivered_at;
}

unfoldable pub deliver : Encoding → Webhook → String → String → Action (Unit {0})
unfolding sign
deliver c hook event payload = do
  o ← attempt_from max_attempts 1 hook.url (sign c payload hook.secret) payload no_outcome
  id ← new_uuid
  ignore (save_delivery (delivery_row id hook.id event payload o))

abbrev pub subscribes : String → Webhook → Bool
subscribes event hook = any_by (λ e. e =s= event) hook.events

unfoldable pub deliver_all : Encoding → String → String → List Webhook → Action (Unit {0})
deliver_all c event payload [] = pure tt
deliver_all c event payload (hook ∷ hooks) = do
  when (subscribes event hook) (deliver c hook event payload)
  deliver_all c event payload hooks

-- The body of the goroutine.
unfoldable pub fire : Encoding → ℕ → String → String → Action (Unit {0})
fire c project_id event payload = do
  hooks ← list_active_by_project project_id
  id ← new_uuid
  t ← now
  deliver_all c event (c.marshal id event project_id t payload) hooks
