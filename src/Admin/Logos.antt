-- ===== src/Admin/Logos.antt =====
-- internal/admin/handler.go: the logos of the channels of a network.
use Prim.Native.String.{◌++◌ as ◌+s◌}
use text.Mathlib.TextEquality.{eq_iff}
use nexium_storage_back.Shared.{
  ℕ, ◌≡◌, refl, Bool, true, false, String, Option, none, some, List, [], ◌∷◌, ◌==◌, ◌=s=◌,
  if◌then◌else◌, find_by, any_by, update_where, IsKeyed, arith, ok, ap, sym, subst, ==_iff,
  find_by_sound, Bool-cases, inl, inr, find_by-update_where,
}
use nexium_storage_back.World.{PaymentChannel, r2_put, Log, sql, Ext, World}
use nexium_storage_back.Storage.{public_url}
use nexium_storage_back.Logs.{insert_log}
use nexium_storage_back.Admin.Accounts.{log_async}
use nexium_storage_back.Admin.Channels.{
  base, is_distinct, has_channel_id, with_logo, takes_logo, update_channels, propagate_logo,
  set_logo, set_field, update_channel, null_if_blank, ChannelUpdate, upload_channel_logo,
}

-- The channels of the network of `own`: their slugs differ in the country only.
abbrev pub is_of_network : PaymentChannel → PaymentChannel → Bool
is_of_network own c = base c.slug =s= base own.slug

same_logo : (a b : Option String) → is_distinct a b ≡ false → a ≡ b
same_logo none none h = refl
same_logo none (some t) h = cc
same_logo (some a) none h = cc
same_logo (some a) (some t) h = elim (Bool-cases (a =s= t)) [
  | inl e ↦ ap some ((eq_iff a t).0 e)
  | inr e ↦ ground arith
]

module _ (own : PaymentChannel) (logo : Option String) where
  abbrev takes : PaymentChannel → Bool
  takes = takes_logo own.id logo (some (with_logo logo own))

  abbrev given : PaymentChannel → PaymentChannel
  given c = if is_of_network own c then with_logo logo c else c

  unchanged : (c : PaymentChannel) → is_distinct c.logo_url logo ≡ false → with_logo logo c ≡ c
  unchanged c h = ap (λ l. with_logo l c) (sym (same_logo c.logo_url logo h))

  is_of_network_refl : is_of_network own own ≡ true
  is_of_network_refl = (eq_iff (base own.slug) (base own.slug)).1 refl

  -- A row of another id.
  other_takes :
      (c : PaymentChannel)
      → (c.id == own.id) ≡ false
      → (if takes c then with_logo logo c else c) ≡ given c
  unfolding takes_logo
  other_takes c h = elim (Bool-cases (is_distinct c.logo_url logo)) [
    | inl d ↦ rw (h, d) refl
    | inr d ↦ ground (arith, unchanged c d)
  ]

  own_takes :
      (if takes (with_logo logo own) then with_logo logo own else with_logo logo own) ≡ given own
  unfolding takes_logo
  own_takes = ground (arith, is_of_network_refl)

  others :
      (xs : List PaymentChannel)
      → any_by (has_channel_id own.id) xs ≡ false
      → update_where takes
          (with_logo logo)
          (update_where (has_channel_id own.id) (with_logo logo) xs)
        ≡ update_where (is_of_network own) (with_logo logo) xs
  unfolding update_where any_by
  others [] h = refl
  others (c ∷ xs) h = ground (arith, others xs, other_takes c)

  all :
      (xs : List PaymentChannel)
      → IsKeyed (λ (c : PaymentChannel). c.id) xs
      → find_by (has_channel_id own.id) xs ≡ some own
      → update_where takes
          (with_logo logo)
          (update_where (has_channel_id own.id) (with_logo logo) xs)
        ≡ update_where (is_of_network own) (with_logo logo) xs
  unfolding update_where find_by
  all [] keyed e = cc
  all (c ∷ xs) keyed e = ground (arith, others xs, other_takes c, own_takes, all xs keyed.1)

abbrev pub only_logo : String → ChannelUpdate
only_logo url = record {
  name = none;
  logo_url = some url;
  is_active = none;
  maintenance_note = none;
  display_order = none;
  country_code = none;
  provider = none;
}

-- What the two statements leave, where neither fails.
both_statements :
    (id : ℕ) (logo : Option String) (x : Ext) (w : World) {own : PaymentChannel}
    → IsKeyed (λ (c : PaymentChannel). c.id) w.db.payment_channels
    → find_by (has_channel_id id) w.db.payment_channels ≡ some own
    → ((l : Log) → x.fails (sql "admin.propagateLogo" ∷ l) ≡ false)
    → (l : Log)
    → let w' : World = record {
      db = update_channels (has_channel_id id) (with_logo logo) w.db;
      log = l;
    } in
      (propagate_logo id logo x w').1.db ≡ update_channels (is_of_network own) (with_logo logo) w.db
unfolding propagate_logo
both_statements id logo x w {own} keyed e up l =
    let cs = w.db.payment_channels in
    let same : own.id ≡ id = (==_iff own.id id).0 (find_by_sound (has_channel_id id) cs e) in
    let e' = subst (λ n. find_by (has_channel_id n) cs ≡ some own) (sym same) e in
    let found = find_by-update_where (has_channel_id own.id) (with_logo logo) cs (λ y. refl) in
    rw (up l, sym same, found, e')
      (ap (λ t. record w.db { payment_channels = t }) (all own logo cs keyed e'))

-- Where the two statements for the logo do not fail, an update of a channel's logo gives it, or no logo
-- if it is "", to all the channels of the network, and the handler changes nothing else in the tables.
-- The goroutine that it starts, whenever it writes its row, changes the activity log alone.
pub update_channel-network :
    (actor_id id : ℕ) (url : String) (x x' : Ext) (w w' : World) (action kind row : String)
    {own : PaymentChannel}
    → IsKeyed (λ (c : PaymentChannel). c.id) w.db.payment_channels
    → find_by (has_channel_id id) w.db.payment_channels ≡ some own
    → x.fails (sql "admin.channel.logo_url" ∷ w.log) ≡ false
    → ((l : Log) → x.fails (sql "admin.propagateLogo" ∷ l) ≡ false)
    → ((update_channel actor_id id (only_logo url) x w).1.db
        ≡ update_channels (is_of_network own) (with_logo (null_if_blank url)) w.db)
      × (record ((insert_log actor_id action kind row x' w').1.db) {
        activity_logs = w'.db.activity_logs;
      }
          ≡ w'.db)
unfolding insert_log update_channel set_field set_logo propagate_logo log_async
update_channel-network actor id url x x' w w' action kind row keyed e first up =
    let both = both_statements id (null_if_blank url) x w keyed e up in
    (rw first (both (sql "admin.channel.logo_url" ∷ w.log)), ground arith)

-- So does an upload of a logo that returns, for the public URL of the object.
upload_channel_logo-network :
    (base_url : String) (actor_id id size : ℕ) (x : Ext) (w : World) {own : PaymentChannel}
    {url : String}
    → IsKeyed (λ (c : PaymentChannel). c.id) w.db.payment_channels
    → find_by (has_channel_id id) w.db.payment_channels ≡ some own
    → ((l : Log) → x.fails (sql "admin.propagateLogo" ∷ l) ≡ false)
    → (upload_channel_logo base_url actor_id id size x w).0 ≡ ok url
    → (upload_channel_logo base_url actor_id id size x w).1.db
      ≡ update_channels (is_of_network own) (with_logo (some url)) w.db
unfolding upload_channel_logo propagate_logo log_async
upload_channel_logo-network base_url actor id size x w {url = url} keyed e up h =
    let key = "system/logos/" +s x.uuid_string id in
    let put = r2_put key size ∷ w.log in
    let same : public_url base_url key ≡ url = ground arith in
    let both =
      both_statements id (some (public_url base_url key)) x w keyed e up
        (sql "admin.channelLogo" ∷ put) in
    rw (sym same) (ground (arith, both))
