-- ===== src/Examples/Platform.antt =====
-- Routes, projects, migrations and administration, at a concrete database.
use nexium_storage_back.Projects.{
  Service as ProjectService, delete, get_by_id, delete_row, delete_objects, is_in_bucket_of,
}
use nexium_storage_back.Shared.{
  Bool, List, Option, Result, String, any_by, delete_where, false, find_by, none, not, ok, pos,
  refl, select_by, some, true, update_where, ℕ, ◌==◌, ◌=s=◌, [], ◌∷◌, ◌≡◌,
}
use nexium_storage_back.Calendar.{year_month}
use nexium_storage_back.World.{ApiKey, BillingPayment, Bucket, File, User, Webhook, World, pure}
use nexium_storage_back.Files.{
  FileInfo, bucket_owner, confirm_upload, find_bucket, join_bucket, lookup_owned, owned_by,
  presign_upload, upload,
}
use nexium_storage_back.Billing.{PaymentInfo, find_payment_by_gateway_id, find_plan, join_plan}
use nexium_storage_back.Server.{
  Increment, billing_service, enforce_api_quota, ext_route, file_service, rate_limited, touch,
  track_activity,
}
use nexium_storage_back.Server.Laws.{billing_service-ServiceLaws}
use nexium_storage_back.Middleware.{
  Context, Windows, admitted, authenticate_api_key, bearer_token, check_api_quota, find_key,
  parse_uuids, quota_row, rate_limit_per_project, request, request_count, request_limit,
  require_bucket_scope,
}
use nexium_storage_back.Files.Access.{has_file}
use nexium_storage_back.Admin.{lock_platform, log_async}
use nexium_storage_back.Http.{Handler, delete_route, ext_file_route, log_and_fire, saspay_webhook}
use nexium_storage_back.Http.Gateways.{saspay_without_secret}
use nexium_storage_back.Http.Scoping.{scoped_key_deletes}
use nexium_storage_back.Billing.Replay.{recorded}
use nexium_storage_back.Database.{Migrations, run_migrations}
use nexium_storage_back.Database.Applied.{second_run_applies_nothing}
use nexium_storage_back.Projects.Deletion.{delete_takes_all}
use nexium_storage_back.Admin.Quotas.{Stopped, lock_refuses_uploads}
use nexium_storage_back.Examples.Fixtures.{
  db, file, fine, id_of_text, id_text, outside, payment, pro, world,
}

abbrev same : String → String
same text = text

abbrev contains : String → String → Bool
contains a b = a =s= b

abbrev passed : Result (Unit {0}) × Option Increment
passed = (ok tt, some (1, 197108))

abbrev no_windows : Windows
no_windows key = none

abbrev seven : List ℕ
seven = 7 ∷ []

abbrev key_holder : Context
key_holder = record { user_id = some 1; project_id = some 5; allowed_bucket_ids = seven }

abbrev other_file : FileInfo
other_file = record { row = file 12 8; url = ""; bucket_is_public = false }

-- No secret of SasPay; every body is an event of success about the payment "g1".
abbrev open_handler : Handler
open_handler = record {
  service = billing_service false same;
  webhook_secret = "secret";
  saspay_webhook_secret = "";
  hmac_hex = λ payload secret. secret;
  event_of = λ body. none;
  payment_of = λ body. none;
  saspay_event_of = λ body. some ("payment.success", body);
  saspay_id_of = λ text. some "g1";
}

abbrev saspay_payment : BillingPayment
saspay_payment = record (payment "pending") { provider = "saspay" }

abbrev asked : World
asked = record { db = record db { billing_payments = saspay_payment ∷ [] }; log = [] }

abbrev owed : PaymentInfo
owed = record { row = saspay_payment; plan = pro; failure_reason = "" }

abbrev files_of_sql : Migrations
files_of_sql = record {
  names = "002.sql" ∷ "001.sql" ∷ [];
  less = λ a b. a =s= "001.sql";
  apply = λ name old. old;
}

abbrev projects : ProjectService
projects = record {
  list_bucket_ids = λ project_id user_id. pure seven;
  trim_space = same;
  unicode = record { is_alnum = λ c. true; is_space = λ c. false; to_lower = λ c. c };
}

-- User 1 is a super administrator.
abbrev root : User
root = record {
  id = 1;
  name = "R";
  email = "r@x";
  pending_email = none;
  password_hash = "h";
  is_admin = true;
  is_super_admin = true;
  is_verified = true;
  storage_quota_bytes = none;
  last_active_at = none;
  inactivity_warned_at = none;
}

abbrev governed : World
governed = record { db = record db { users = root ∷ [] }; log = [] }

scoped_key_deletes_example :
    let (r, w') =
      (ext_route "Bearer nx_live_k"
        (ext_file_route (λ k. delete_route k (some 12)))
        no_windows
        fine
        world).1 in
    (passed.0 ≡ ok tt) × (has_file w'.db 1 12 ≡ false)
unfolding authenticate_api_key bearer_token find_key find_by parse_uuids id_text id_of_text
    lookup_owned owned_by bucket_owner find_bucket require_bucket_scope join_bucket any_by ext_route
    ext_file_route rate_limited rate_limit_per_project request admitted enforce_api_quota
    check_api_quota quota_row request_limit request_count track_activity touch update_where
    delete_route nexium_storage_back.Files.delete nexium_storage_back.Files.get_by_id
    nexium_storage_back.Files.delete_row delete_where log_and_fire year_month
scoped_key_deletes_example =
    scoped_key_deletes "Bearer nx_live_k" key_holder 12 1 no_windows fine world {f = other_file}
      {answer = passed} refl refl refl refl (λ l. refl) refl

saspay_without_secret_example :
    (saspay_webhook open_handler (some "{}") "" "" fine asked).1.db.billing_payments
    ≡ (recorded asked.db owed "g1").billing_payments
unfolding find_payment_by_gateway_id join_plan find_plan find_by
saspay_without_secret_example =
    saspay_without_secret open_handler "{}" "" "" "{}" "g1" fine asked {p = owed}
      (billing_service-ServiceLaws false same) refl refl refl refl refl ((refl, refl))

second_run_applies_nothing_example :
    let w' = (run_migrations files_of_sql fine world).1 in
    (run_migrations files_of_sql (outside "completed") (record w' { log = [] })).1.db ≡ w'.db
second_run_applies_nothing_example =
    second_run_applies_nothing files_of_sql fine (outside "completed") world [] (λ name old. refl)
      (λ l. refl) refl

delete_takes_all_example :
    let db' = (delete projects 1 5 fine world).1.db in
    let of_project = λ (b : Bucket). b.project_id == 5 in
    let in_project = λ (f : File). is_in_bucket_of 5 world.db.buckets f.bucket_id in
    (any_by of_project db'.buckets ≡ false)
    × (any_by in_project db'.files ≡ false)
    × (any_by (λ (k : ApiKey). k.project_id == 5) db'.api_keys ≡ false)
    × (any_by (λ (h : Webhook). h.project_id == 5) db'.webhooks ≡ false)
    × (select_by (λ b. not (of_project b)) db'.buckets
        ≡ select_by (λ b. not (of_project b)) world.db.buckets)
    × (select_by (λ f. not (in_project f)) db'.files
        ≡ select_by (λ f. not (in_project f)) world.db.files)
unfolding delete get_by_id delete_row find_by delete_where delete_objects
delete_takes_all_example = delete_takes_all projects 1 5 fine world (λ l. refl) refl

lock_refuses_uploads_example :
    let s = file_service (pos 1) "https://app" "" same contains in
    let w' : World = record (lock_platform 1 fine governed).1 { log = [] } in
    Stopped w' (upload s 1 7 "b.png" "image/png" 40 fine w')
    × Stopped w' (presign_upload s 1 7 "b.png" "image/png" fine w')
    × Stopped w' (confirm_upload s 1 7 9 "k" "b.png" "image/png" 40 fine w')
unfolding lock_platform log_async find_by update_where any_by
lock_refuses_uploads_example =
    lock_refuses_uploads (pos 1) "https://app" "" same contains 1 1 7 9 "b.png" "image/png" "k" 40
      fine fine governed [] refl (λ l. refl)
