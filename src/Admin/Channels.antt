-- ===== src/Admin/Channels.antt =====
-- internal/admin/handler.go: the payment channels, and the logos that the channels of a network share.
use Prim.Native.String.{[] as []ₛ, ◌∷◌ as ◌∷ₛ◌, ◌++◌ as ◌+s◌, count, len}
use nexium_storage_back.Shared.{
  ℕ, zero, suc, ◌-◌, ◌≡◌, refl, Bool, true, false, not, ◌&&◌, ◌||◌, String, Option, none, some, ◌∷◌,
  ◌==◌, ◌=s=◌, ltb, leb, if◌then◌else◌, find_by, any_by, update_where, delete_where, ℤ, bad_request,
  Result, ok, err,
}
use nexium_storage_back.World.{
  PaymentChannel, Db, Action, r2_put, pure, call, attempt, ignore, ◌>>=◌, ◌>>◌, raise_if, query,
  exec, exec_unique, new_uuid, uuid_text,
}
use nexium_storage_back.Storage.{public_url}
use nexium_storage_back.Admin.Accounts.{log_async}

-- The `LEFT` of PostgreSQL, for a length that is not negative.
unfoldable pub left : ℕ → String → String
left zero s = ""
left (suc n) []ₛ = ""
left (suc n) (c ∷ₛ s) = c ∷ₛ left n s

-- `LEFT(slug, LENGTH(slug)-3)`: of a negative length, `LEFT` leaves out that many characters of the end.
unfoldable pub base : String → String
base slug = let n = count slug in if leb 3 n then left (n - 3) slug else left (n - (3 - n)) slug

abbrev pub or_blank : Option String → String
or_blank none = ""
or_blank (some s) = s

-- `NULLIF(value, '')`
abbrev pub null_if_blank : String → Option String
null_if_blank value = if value =s= "" then none else some value

-- `IS DISTINCT FROM`
abbrev pub is_distinct : Option String → Option String → Bool
is_distinct none none = false
is_distinct none (some t) = true
is_distinct (some s) none = true
is_distinct (some s) (some t) = not (s =s= t)

abbrev pub has_channel_id : ℕ → PaymentChannel → Bool
has_channel_id id c = c.id == id

abbrev pub with_logo : Option String → PaymentChannel → PaymentChannel
with_logo logo c = record c { logo_url = logo }

abbrev pub update_channels : (PaymentChannel → Bool) → (PaymentChannel → PaymentChannel) → Db → Db
update_channels p f db = record db { payment_channels = update_where p f db.payment_channels }

-- The condition of the statement that gives the logo to the network of the channel, whose row is the last
-- argument: without a row the subquery is `NULL`.
unfoldable pub takes_logo : ℕ → Option String → Option PaymentChannel → PaymentChannel → Bool
takes_logo id logo none c = false
takes_logo id logo (some own) c =
    not (c.id == id) && (is_distinct c.logo_url logo && base c.slug =s= base own.slug)

unfoldable pub propagate_logo : ℕ → Option String → Action (Unit {0})
propagate_logo id logo = ignore (
    exec "admin.propagateLogo" (λ _ db.
      update_channels (takes_logo id logo (find_by (has_channel_id id) db.payment_channels))
        (with_logo logo) db))

-- The logo of a channel of the network that has one; `Scan` leaves "" without a row.
abbrev inherits : String → PaymentChannel → Bool
inherits slug c = is_distinct c.logo_url none && base c.slug =s= base slug

abbrev logo_of_row : Option PaymentChannel → String
logo_of_row none = ""
logo_of_row (some c) = or_blank c.logo_url

abbrev or_no_logo : Result String → String
or_no_logo (ok logo) = logo
or_no_logo (err e) = ""

unfoldable inherited_logo : String → String → Action String
inherited_logo slug logo =
    if logo =s= "" && ltb 3 (len slug)
    then (do
      answer ← attempt (
          query "admin.inheritLogo"
            (λ _ db. logo_of_row (find_by (inherits slug) db.payment_channels)))
      pure (or_no_logo answer))
    else pure logo

pub record NewChannel : Type 0 where
  pub name : String
  pub slug : String
  pub logo_url : String
  pub display_order : ℤ
  pub country_code : String
  pub provider : String

abbrev or_default : String → String → String
or_default other value = if value =s= "" then other else value

abbrev provider_of : String → String
provider_of country = if country =s= "CI" then "adullam" else "saspay"

abbrev channel_of : NewChannel → String → ℕ → PaymentChannel
channel_of req logo id =
    let country = or_default "CI" req.country_code in
    record {
      id = id;
      name = req.name;
      slug = req.slug;
      logo_url = null_if_blank logo;
      is_active = true;
      maintenance_note = none;
      display_order = req.display_order;
      country_code = country;
      provider = or_default (provider_of country) req.provider;
    }

-- `slug` is unique (migrations/017_payment_channels.sql).
unfoldable create_channel : ℕ → NewChannel → Action ℕ
create_channel actor_id req = do
  raise_if (req.name =s= "" || req.slug =s= "") (bad_request "name and slug are required")
  logo ← inherited_logo req.slug req.logo_url
  id ← new_uuid
  exec_unique "admin.createChannel"
      (λ db. any_by (λ (c : PaymentChannel). c.slug =s= req.slug || c.id == id) db.payment_channels)
      (λ _ db. record db { payment_channels = channel_of req logo id ∷ db.payment_channels })
  log_async actor_id "admin.billing.channel.create"
  pure id

pub record ChannelUpdate : Type 0 where
  pub name : Option String
  pub logo_url : Option String
  pub is_active : Option Bool
  pub maintenance_note : Option String
  pub display_order : Option ℤ
  pub country_code : Option String
  pub provider : Option String

-- `if req.X != nil { h.db.Exec(...) }`: an error is dropped.
unfoldable pub set_field {ℓ} :
    {A : Type ℓ} → ℕ → String → (A → PaymentChannel → PaymentChannel) → Option A → Action (Unit {0})
set_field id column change none = pure tt
set_field id column change (some a) =
    ignore (exec column (λ _. update_channels (has_channel_id id) (change a)))

unfoldable pub set_logo : ℕ → Option String → Action (Unit {0})
set_logo id none = pure tt
set_logo id (some url) = do
  ignore (
      exec "admin.channel.logo_url"
        (λ _. update_channels (has_channel_id id) (with_logo (null_if_blank url))))
  propagate_logo id (null_if_blank url)

unfoldable pub update_channel : ℕ → ℕ → ChannelUpdate → Action (Unit {0})
update_channel actor_id id req = do
  set_field id "admin.channel.name" (λ s c. record c { name = s }) req.name
  set_logo id req.logo_url
  set_field id "admin.channel.is_active" (λ b c. record c { is_active = b }) req.is_active
  set_field id "admin.channel.maintenance_note"
      (λ s c. record c { maintenance_note = null_if_blank s }) req.maintenance_note
  set_field id "admin.channel.display_order" (λ n c. record c { display_order = n })
      req.display_order
  set_field id "admin.channel.country_code" (λ s c. record c { country_code = s }) req.country_code
  set_field id "admin.channel.provider" (λ s c. record c { provider = s }) req.provider
  log_async actor_id "admin.billing.channel.update"

unfoldable delete_channel : ℕ → ℕ → Action (Unit {0})
delete_channel actor_id id = do
  exec "admin.deleteChannel" (λ _ db. record db {
    payment_channels = delete_where (has_channel_id id) db.payment_channels;
  })
  log_async actor_id "admin.billing.channel.delete"

-- `uploadChannelLogo`, for the public URL of the configuration and a file of the size.
unfoldable pub upload_channel_logo : String → ℕ → ℕ → ℕ → Action String
upload_channel_logo base_url actor_id id size = do
  name ← uuid_text id
  let key = "system/logos/" +s name
  call (r2_put key size)
  let url = public_url base_url key
  exec "admin.channelLogo" (λ _. update_channels (has_channel_id id) (with_logo (some url)))
  propagate_logo id (some url)
  log_async actor_id "admin.billing.channel.logo"
  pure url

base_example : (base "orange_ci" ≡ "orange") × (base "om" ≡ "o")
unfolding base left
base_example = (refl, refl)
