-- ===== src/Billing/Store/Countries.antt =====
-- internal/billing/store.go: the countries, which internal/admin/handler.go lists and updates, too.
use nexium_storage_back.Shared.{
  ℕ, Bool, not, ◌&&◌, String, List, ◌=s=◌, select_by, sort_by, update_where,
}
use nexium_storage_back.World.{Country, Db, Action, query, exec}

abbrev pub has_country_code : String → Country → Bool
has_country_code code c = c.code =s= code

-- `ORDER BY name ASC`, for the collation of the database.
abbrev by_name : (String → String → Bool) → Country → Country → Bool
by_name before a b = before a.name b.name

unfoldable list_countries : (String → String → Bool) → Action (List Country)
list_countries before =
    query "billing.ListCountries" (λ _ db. sort_by (by_name before) db.billing_countries)

abbrev is_open : Country → Bool
is_open c = c.is_active && not (c.code =s= "INT")

-- `ListActiveCountries`, which the service and the public route pass on.
unfoldable list_active_countries : (String → String → Bool) → Action (List Country)
list_active_countries before =
    query "billing.ListActiveCountries"
      (λ _ db. sort_by (by_name before) (select_by is_open db.billing_countries))

abbrev pub update_countries : (Country → Bool) → (Country → Country) → Db → Db
update_countries p f db = record db { billing_countries = update_where p f db.billing_countries }

abbrev pub with_rate : ℕ → Country → Country
with_rate rate c = record c { local_per_xof = rate }

abbrev pub with_activity : Bool → Country → Country
with_activity active c = record c { is_active = active }

unfoldable update_country : String → Bool → ℕ → Action (Unit {0})
update_country code active rate =
    exec "billing.UpdateCountry"
      (λ _. update_countries (has_country_code code) (λ c. with_rate rate (with_activity active c)))
