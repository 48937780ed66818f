-- ===== src/Examples/Administration.antt =====
-- Administration, rates, quotas and roles, at concrete inputs.
use nexium_storage_back.Shared.{
  Bool, List, String, any_by, api, err, false, find_by, forbidden, leb, length, ltb, map, none, ok,
  pos, refl, some, sort_by, sum_where, true, ℕ, ◌≡◌, ◌==◌, ◌-◌, ◌+◌, if◌then◌else◌, [], ◌∷◌,
}
use nexium_storage_back.World.{
  Action, Country, Ext, PaymentChannel, User, World, pure, rows_before, sql,
}
use nexium_storage_back.Logs.{insert_log}
use nexium_storage_back.Calendar.{year_month}
use nexium_storage_back.Admin.Channels.{null_if_blank, update_channel, update_channels, with_logo}
use nexium_storage_back.Admin.Logos.{is_of_network, only_logo, update_channel-network}
use nexium_storage_back.Admin.Listings.{AdminUser, admin_user, users}
use nexium_storage_back.Admin.Totals.{users-total_bytes_by_user}
use nexium_storage_back.Admin.Countries.{RateSource, do_refresh_rates, is_floating, new_rate}
use nexium_storage_back.Admin.Rates.{do_refresh_rates-update_where, one, rated}
use nexium_storage_back.Server.Gates.{super_admin_route-Refused}
use nexium_storage_back.Middleware.{
  Context, bearer_token, check_api_quota, quota_row, request_count, request_limit,
}
use nexium_storage_back.Billing.{update_countries}
use nexium_storage_back.Http.{Consumption, consumption_row, get_consumption}
use nexium_storage_back.Http.Meters.{get_consumption-check_api_quota, is_used_up}
use nexium_storage_back.Files.{
  bucket_owner, find_bucket, owned_by, total_bytes_by_user, total_storage_bytes_by_user,
}
use nexium_storage_back.Server.{promote_super_admin, super_admin_route}
use nexium_storage_back.Server.Metering.{arrival, handled_exactly, metered, settled, writing}
use nexium_storage_back.Server.Promotion.{both_guards, promote_super_admin-enters}
use nexium_storage_back.Examples.Fixtures.{channel, db, fine, id_text, id_text-parses, user, world}

abbrev listed : List AdminUser
listed = admin_user db (user 2 (some 49999999)) ∷ admin_user db (user 1 (some 1)) ∷ []

abbrev wave : PaymentChannel
wave = channel 70 "wave_ci"

abbrev newer : User → User → Bool
newer a b = ltb b.id a.id

abbrev numbers : Consumption
numbers = record {
  storage_used_bytes = 60;
  storage_quota_bytes = pos 1000;
  api_requests_used = 0;
  api_requests_limit = some 10;
  month = 197108;
}

abbrev key_user : Context
key_user = record { user_id = some 1; project_id = some 5; allowed_bucket_ids = [] }

abbrev answers : Context → Action (Unit {0})
answers c = pure tt

-- Not verified, with the e-mail of the configuration.
abbrev boss : User
boss = record {
  id = 3;
  name = "B";
  email = "boss@x";
  pending_email = none;
  password_hash = "h";
  is_admin = false;
  is_super_admin = false;
  is_verified = false;
  storage_quota_bytes = none;
  last_active_at = none;
  inactivity_warned_at = none;
}

abbrev guest : User
guest = record boss { id = 4; email = "guest@x" }

abbrev started : World
started = record { db = record db { users = boss ∷ guest ∷ [] }; log = [] }

abbrev country : String → String → Country
country code currency = record {
  code = code;
  name = code;
  currency_code = currency;
  currency_symbol = currency;
  local_per_xof = 10000;
  flag_emoji = "";
  is_active = true;
}

abbrev traded : World
traded = record {
  db = record db { billing_countries = country "CI" "XOF" ∷ country "NG" "NGN" ∷ [] };
  log = [];
}

-- A rate is its number of ten-thousandths.
abbrev source : RateSource ℕ
source = record { rates = λ l. ("NGN", 24500) ∷ []; is_zero = λ n. n == 0; stored = λ n. n }

abbrev signed : Ext
signed = record fine { jwt_subject = λ secret token. some (id_text 4) }

update_channel-network_example :
    ((update_channel 1 70 (only_logo "https://logo") fine world).1.db
      ≡ update_channels (is_of_network wave) (with_logo (null_if_blank "https://logo")) world.db)
    × (record ((insert_log 1 "a" "k" "r" fine world).1.db) {
      activity_logs = world.db.activity_logs;
    }
        ≡ world.db)
unfolding find_by any_by
update_channel-network_example =
    update_channel-network 1 70 "https://logo" fine fine world world "a" "k" "r" {own = wave}
      ((refl, (refl, (refl, tt)))) refl refl (λ l. refl)

users-total_bytes_by_user_example :
    map {B = ℕ × ℕ} (λ (a : AdminUser). (a.id, a.storage_bytes)) listed
    ≡ rows_before (fine.rows_read (sql "admin.users" ∷ world.log)) (
        map {B = ℕ × ℕ}
          (λ (u : User). (u.id, total_bytes_by_user world.db u.id))
          (sort_by newer world.db.users))
unfolding any_by users sort_by
users-total_bytes_by_user_example =
    users-total_bytes_by_user newer fine world {list = listed} ((refl, tt)) ((refl, (refl, tt)))
      refl

get_consumption-check_api_quota_example :
    let w' : World = record world { log = [] } in
    ((check_api_quota 1 fine w').0 ≡ (
      if is_used_up numbers
      then err (api 429 "monthly API quota exceeded — upgrade your plan")
      else ok (true, numbers.month)))
    × ((total_storage_bytes_by_user 1 fine w').0 ≡ ok numbers.storage_used_bytes)
unfolding any_by get_consumption consumption_row quota_row find_by total_bytes_by_user sum_where
    owned_by bucket_owner find_bucket request_limit request_count year_month
get_consumption-check_api_quota_example =
    get_consumption-check_api_quota key_user 1 fine fine world [] {k = numbers} refl refl
      ((refl, tt)) ((refl, (refl, tt))) refl refl refl

handled_exactly_example :
    let (passing, (jobs, w')) =
      metered (arrival ∷ arrival ∷ writing ∷ []) answers key_user fine ([], world) in
    (request_count w'.db 1 197108 + length jobs ≡ 0 + passing)
    × ((metered (settled 12) answers key_user fine ([], world)).0
        ≡ (if leb 12 (10 - 0) then 12 else 10 - 0))
unfolding quota_row find_by request_limit request_count year_month
handled_exactly_example =
    handled_exactly answers key_user fine world 1 197108 10 0 12 (arrival ∷ arrival ∷ writing ∷ [])
      refl refl (λ v. refl) (λ l. refl) (λ l. refl) (λ l. refl)

promote_super_admin-enters_example :
    let w' : World = record (promote_super_admin "boss@x" fine started).1 { log = [] } in
    let c' = record key_user { user_id = some boss.id } in
    ((both_guards c' fine w').0 ≡ ok tt)
    × (find_by (λ (y : User). y.id == 4) w'.db.users ≡ some guest)
unfolding find_by any_by
promote_super_admin-enters_example =
    promote_super_admin-enters "boss@x" key_user fine fine started [] 4 {u = boss} {v = guest} refl
      ((refl, (refl, tt))) refl refl refl refl refl refl

do_refresh_rates-update_where_example :
    ((do_refresh_rates source fine traded).1.db
      ≡ update_countries is_floating (rated source (("NGN", 24500) ∷ [])) traded.db)
    × ((do_refresh_rates source fine traded).0
        ≡ ok (
            sum_where is_floating
              (λ c. one source (("NGN", 24500) ∷ []) (new_rate source (("NGN", 24500) ∷ []) c))
              traded.db.billing_countries))
unfolding any_by
do_refresh_rates-update_where_example =
    do_refresh_rates-update_where source fine traded {r = ("NGN", 24500)} {rs = []} refl refl refl
      (λ l. refl) ((refl, (refl, tt)))

super_admin_route-Refused_example :
    ((super_admin_route "secret" "Bearer t" answers signed started).0 ≡ err forbidden)
    × ((super_admin_route "secret" "Bearer t" answers signed started).1.db ≡ started.db)
unfolding bearer_token find_by
super_admin_route-Refused_example =
    super_admin_route-Refused "secret" "Bearer t" "t" (id_text 4) answers signed started 4 refl refl
      (id_text-parses 4) refl
