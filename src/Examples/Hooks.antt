-- ===== src/Examples/Hooks.antt =====
-- Hooks and their deliveries, at a concrete database.
use nexium_storage_back.Shared.{refl, true, ◌≡◌}
use nexium_storage_back.Webhooks.{Encoding, attempt_from, fire, no_outcome}
use nexium_storage_back.Webhooks.Attempts.{Delivered, attempts_outcome}
use nexium_storage_back.Webhooks.Fanout.{all_allowed, fire_posts_only_subscribed, is_subscribed_url}
use nexium_storage_back.Examples.Fixtures.{fine, world}

abbrev encoding : Encoding
encoding = record {
  hmac_hex = λ payload secret. secret;
  marshal = λ id event project_id t body. body;
  prefixed = λ text. text;
}

attempts_outcome_example :
    let (r, w') = attempt_from 3 1 "https://hook" "s" "{}" no_outcome fine world in
    Delivered r world.log w'.log × (w'.db ≡ world.db)
attempts_outcome_example = attempts_outcome "https://hook" "s" "{}" fine world

fire_posts_only_subscribed_example :
    all_allowed
      (is_subscribed_url 5 "file.created" world.db.webhooks)
      (fire encoding 5 "file.created" "{}" fine world).1.log
    ≡ true
fire_posts_only_subscribed_example =
    fire_posts_only_subscribed encoding 5 "file.created" "{}" fine world refl
