-- ===== src/Admin/Countries.antt =====
-- internal/admin/handler.go: the countries of the billing and their rates of exchange.
use nexium_storage_back.Shared.{
  ℕ, ◌+◌, if◌then◌else◌, api, infra, Bool, not, ◌||◌, String, Option, none, some, List, [], ◌∷◌,
  ◌=s=◌, find_by, select_by, Error, bad_request, Result, ok, err,
}
use nexium_storage_back.World.{
  Country, Log, http_get, Action, pure, raise, attempt, ask, ignore, ◌>>=◌, ◌>>◌, query, exec,
}
use nexium_storage_back.Billing.{has_country_code, update_countries, with_rate, with_activity}
use nexium_storage_back.Admin.Accounts.{log_async}

-- `if req.X != nil { h.db.Exec(...) }`: an error is dropped.
unfoldable set_country {ℓ} :
    {A : Type ℓ} → String → String → (A → Country → Country) → Option A → Action (Unit {0})
set_country code column change none = pure tt
set_country code column change (some a) =
    ignore (exec column (λ _. update_countries (has_country_code code) (change a)))

-- The rate is what `NUMERIC(14, 4)` makes of the number.
unfoldable update_billing_country : String → Option Bool → Option ℕ → Action (Unit {0})
update_billing_country code active rate = do
  set_country code "admin.country.is_active" with_activity active
  set_country code "admin.country.local_per_xof" with_rate rate

-- What the service of the rates answers, where it does and the answer can be read: the rates by currency.
-- A float64 is a parameter; `stored` is what `NUMERIC(14, 4)` keeps of it, in ten-thousandths.
pub record RateSource (F : Type 0) : Type 0 where
  pub rates : Log → List (String × F)
  pub is_zero : F → Bool
  pub stored : F → ℕ

-- `currency_code NOT IN ('XOF','XAF')`
abbrev pub is_floating : Country → Bool
is_floating c = not (c.currency_code =s= "XOF" || c.currency_code =s= "XAF")

-- `err.Error()`; the text of an error of the outside is left out.
abbrev pub message : Error → String
message (api code msg) = msg
message infra = ""

module _ {F : Type 0} (s : RateSource F) where
  -- `result.Rates[e.currency]`
  abbrev rate_of : List (String × F) → String → Option (String × F)
  rate_of rates currency = find_by (λ (r : String × F). r.0 =s= currency) rates

  -- The rate that is stored for a country: none where it is missing or 0.
  unfoldable pub new_rate : List (String × F) → Country → Option ℕ
  new_rate rates c = elim (rate_of rates c.currency_code) [
    | none ↦ none
    | some r ↦ if s.is_zero r.1 then none else some (s.stored r.1)
  ]

  abbrev pub counted : Result (Unit {0}) → ℕ
  counted (ok done) = 1
  counted (err e) = 0

  -- `continue` without a rate; 1 for an update that has returned.
  unfoldable pub update_rate : Country → Option ℕ → Action ℕ
  update_rate c none = pure 0
  update_rate c (some rate) = do
    done ←
        attempt
          (exec "admin.setRate" (λ _. update_countries (has_country_code c.code) (with_rate rate)))
    pure (counted done)

  -- The loop over the countries: how many updates have returned.
  unfoldable pub update_rates : List (String × F) → List Country → Action ℕ
  update_rates rates [] = pure 0
  update_rates rates (c ∷ cs) = do
    n ← update_rate c (new_rate rates c)
    rest ← update_rates rates cs
    pure (n + rest)

  -- An error of the request or of the decoding, and an answer without rates, end it.
  unfoldable pub do_refresh_rates : Action ℕ
  do_refresh_rates = do
    rates ← ask (λ x l. s.rates l) (http_get "https://api.exchangerate-api.com/v4/latest/XOF")
    elim rates as (λ _. Action ℕ) [
      | [] ↦ raise (bad_request "empty rates from exchange API")
      | r ∷ rs ↦ do
        cs ← query "admin.floatingCountries" (λ _ db. select_by is_floating db.billing_countries)
        update_rates (r ∷ rs) cs
    ]

  -- Whatever the error, the answer is a 400.
  unfoldable refresh_rates : ℕ → Action ℕ
  refresh_rates actor_id = do
    updated ← attempt do_refresh_rates
    elim updated as (λ _. Action ℕ) [
      | ok n ↦ do log_async actor_id "admin.billing.rates.refresh"; pure n
      | err e ↦ raise (bad_request (message e))
    ]
