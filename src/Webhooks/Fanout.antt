-- ===== src/Webhooks/Fanout.antt =====
-- Which hooks an event reaches (internal/webhooks/service.go: `Fire`).
use text.Mathlib.TextPositions.{eq_refl}
use nexium_storage_back.Shared.{
  ℕ, zero, suc, ◌+◌, ◌≡◌, refl, Bool, true, false, not, ◌&&◌, ◌||◌, String, List, [], ◌∷◌, ◌=s=◌,
  if◌then◌else◌, any_by, select_by, length, arith, ok,
}
use nexium_storage_back.World.{Event, Log, http_post, sql, when, Ext, World, Webhook}
use nexium_storage_back.Webhooks.Delivery.{
  Encoding, Outcome, no_outcome, attempt_from, deliver, sign, subscribes, deliver_all, fire,
}
use nexium_storage_back.Webhooks.Attempts.{attempts_outcome}
use nexium_storage_back.Webhooks.Store.{save_delivery, list_active_by_project, is_active_of}

-- The event is a request to an allowed URL, or no request.
abbrev is_allowed : (String → Bool) → Event → Bool
is_allowed ok_url (http_post url sig payload) = ok_url url
is_allowed ok_url e = true

abbrev pub all_allowed : (String → Bool) → Log → Bool
all_allowed ok_url [] = true
all_allowed ok_url (e ∷ l) = is_allowed ok_url e && all_allowed ok_url l

-- The URL is that of an active hook of the project that subscribes to the event.
abbrev pub is_subscribed_url : ℕ → String → List Webhook → String → Bool
is_subscribed_url project_id event hooks url =
    any_by (λ (h : Webhook). is_active_of project_id h && (subscribes event h && h.url =s= url))
      hooks

attempts_allowed :
    (ok_url : String → Bool) (rounds n : ℕ) (url sig payload : String) (o : Outcome) (x : Ext)
    (w : World)
    → ok_url url ≡ true
    → all_allowed ok_url w.log ≡ true
    → let (r, w') = attempt_from rounds n url sig payload o x w in
      (all_allowed ok_url w'.log ≡ true) × (w'.db ≡ w.db)
unfolding attempt_from
attempts_allowed ok_url zero n url sig payload o x w h k = ground arith
attempts_allowed ok_url (suc rounds) n url sig payload o x w h k =
    grind (arith, attempts_allowed ok_url rounds (n + 1) url sig payload)

deliver_allowed :
    (ok_url : String → Bool) (c : Encoding) (hook : Webhook) (event payload : String) (x : Ext)
    (w : World)
    → ok_url hook.url ≡ true
    → all_allowed ok_url w.log ≡ true
    → all_allowed ok_url (deliver c hook event payload x w).1.log ≡ true
unfolding deliver save_delivery
deliver_allowed ok_url c hook event payload x w h k = ground (
  arith,
  attempts_allowed ok_url 3 1 hook.url (sign c payload hook.secret) payload no_outcome x w h k,
)

abbrev all_hooks : (Webhook → Bool) → List Webhook → Bool
all_hooks p [] = true
all_hooks p (h ∷ hs) = p h && all_hooks p hs

deliver_all-allowed :
    (ok_url : String → Bool) (c : Encoding) (event payload : String) (hooks : List Webhook)
    (x : Ext) (w : World)
    → all_hooks (λ h. not (subscribes event h) || ok_url h.url) hooks ≡ true
    → all_allowed ok_url w.log ≡ true
    → all_allowed ok_url (deliver_all c event payload hooks x w).1.log ≡ true
unfolding deliver_all
deliver_all-allowed ok_url c event payload [] x w a k = ground arith
deliver_all-allowed ok_url c event payload (h ∷ hs) x w a k =
    let d = deliver_allowed ok_url c h event payload x w in
    let w1 = (when (subscribes event h) (deliver c h event payload) x w).1 in
    ground (arith, d, deliver_all-allowed ok_url c event payload hs x w1)

all_hooks_mono :
    (p q : Webhook → Bool) (hs : List Webhook)
    → ((h : Webhook) → p h ≡ true → q h ≡ true)
    → all_hooks p hs ≡ true
    → all_hooks q hs ≡ true
all_hooks_mono p q [] k a = refl
all_hooks_mono p q (h ∷ hs) k a = ground (arith, k h, all_hooks_mono p q hs k)

-- The active hooks of a project are covered by the URLs that its table allows.
selected_covered :
    (project_id : ℕ) (event : String) (hs : List Webhook)
    → all_hooks
        (λ h. not (subscribes event h) || is_subscribed_url project_id event hs h.url)
        (select_by (is_active_of project_id) hs)
      ≡ true
unfolding select_by any_by
selected_covered project_id event [] = refl
selected_covered project_id event (h ∷ hs) =
    let rest = select_by (is_active_of project_id) hs in
    let wider =
      all_hooks_mono (λ g. not (subscribes event g) || is_subscribed_url project_id event hs g.url)
        (λ g. not (subscribes event g) || is_subscribed_url project_id event (h ∷ hs) g.url) rest
        (λ g e. ground arith) (selected_covered project_id event hs) in
    ground (arith, wider, eq_refl h.url)

-- `Fire` addresses its requests only to the URLs of hooks that are active, of the project, and
-- subscribed to the event, whatever fails and whatever status the receivers answer. Where the HTTP
-- client is redirected by an answer, what it sends to follow the redirect is not among these.
pub fire_posts_only_subscribed :
    (c : Encoding) (project_id : ℕ) (event body : String) (x : Ext) (w : World)
    → all_allowed (is_subscribed_url project_id event w.db.webhooks) w.log ≡ true
    → all_allowed
        (is_subscribed_url project_id event w.db.webhooks)
        (fire c project_id event body x w).1.log
      ≡ true
unfolding fire list_active_by_project
fire_posts_only_subscribed c project_id event body x w h =
    let allowed = is_subscribed_url project_id event w.db.webhooks in
    let hooks = select_by (is_active_of project_id) w.db.webhooks in
    grind (
      arith,
      selected_covered project_id event w.db.webhooks,
      λ (payload : String) (v : World). deliver_all-allowed allowed c event payload hooks x v,
    )

-- The hooks that subscribe to the event, counted.
abbrev subscribed_count : String → List Webhook → ℕ
subscribed_count event [] = 0
subscribed_count event (h ∷ hs) = (if subscribes event h then 1 else 0) + subscribed_count event hs

deliver_row :
    (c : Encoding) (hook : Webhook) (event payload : String) (x : Ext) (w : World)
    → ((name : String) (l : Log) → x.fails (sql name ∷ l) ≡ false)
    → let (r, w') = deliver c hook event payload x w in
      (r ≡ ok tt)
      × (length w'.db.webhook_deliveries ≡ suc (length w.db.webhook_deliveries))
      × (w'.db.webhooks ≡ w.db.webhooks)
unfolding deliver save_delivery
deliver_row c hook event payload x w up =
    grind (arith, attempts_outcome hook.url (sign c payload hook.secret) payload x w, up)

deliver_all-rows :
    (c : Encoding) (event payload : String) (hooks : List Webhook) (x : Ext) (w : World)
    → ((name : String) (l : Log) → x.fails (sql name ∷ l) ≡ false)
    → let (r, w') = deliver_all c event payload hooks x w in
      (r ≡ ok tt)
      × (length w'.db.webhook_deliveries
          ≡ length w.db.webhook_deliveries + subscribed_count event hooks)
unfolding deliver_all
deliver_all-rows c event payload [] x w up = ground arith
deliver_all-rows c event payload (h ∷ hs) x w up =
    let w1 = (when (subscribes event h) (deliver c h event payload) x w).1 in
    ground
      (arith, deliver_row c h event payload x w up, deliver_all-rows c event payload hs x w1 up)

-- Where no statement fails, whatever the receivers answer, `Fire` ends and records one delivery for
-- each active hook of the project that subscribes to the event, and no other.
fire_records_each :
    (c : Encoding) (project_id : ℕ) (event body : String) (x : Ext) (w : World)
    → ((name : String) (l : Log) → x.fails (sql name ∷ l) ≡ false)
    → let (r, w') = fire c project_id event body x w in
      (r ≡ ok tt)
      × (length w'.db.webhook_deliveries
          ≡ length w.db.webhook_deliveries
            + subscribed_count event (select_by (is_active_of project_id) w.db.webhooks))
unfolding fire list_active_by_project
fire_records_each c project_id event body x w up =
    let hooks = select_by (is_active_of project_id) w.db.webhooks in
    grind
      (arith, up, λ (payload : String) (v : World). deliver_all-rows c event payload hooks x v up)
