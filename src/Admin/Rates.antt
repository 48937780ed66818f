-- ===== src/Admin/Rates.antt =====
-- internal/admin/handler.go: the loop that refreshes the rates, against a single update.
use text.Mathlib.TextEquality.{eq_iff}
use nexium_storage_back.Shared.{
  ℕ, ◌+◌, ◌≡◌, refl, sym, ap, ◌∙◌, true, false, String, Option, none, some, List, [], ◌∷◌, ◌=s=◌,
  any_by, select_by, update_where, sum_where, arith, ok, inl, inr, Bool-cases, Option-cases,
}
use nexium_storage_back.World.{Country, Log, sql, http_get, Ext, World}
use nexium_storage_back.Billing.{has_country_code, with_rate, update_countries}
use nexium_storage_back.Admin.Countries.{
  RateSource, is_floating, new_rate, update_rate, update_rates, do_refresh_rates,
}

-- No two countries have a code.
abbrev AreUnique : List Country → Type 0
AreUnique [] = Unit
AreUnique (c ∷ cs) = (any_by (λ (d : Country). c.code =s= d.code) cs ≡ false) × AreUnique cs

differs_sym : (a b : String) → (a =s= b) ≡ false → (b =s= a) ≡ false
differs_sym a b h = elim (Bool-cases (b =s= a)) [
  | inl e ↦
      let same : (a =s= b) ≡ true = (eq_iff a b).1 (sym ((eq_iff b a).0 e)) in
      absurd (ground (arith, same))
  | inr e ↦ e
]

module _ {F : Type 0} (s : RateSource F) (rates : List (String × F)) where
  -- A country with its new rate, if it has one.
  abbrev pub rated : Country → Country
  rated c = elim (new_rate s rates c) as (λ _. Country) [ none ↦ c | some rate ↦ with_rate rate c ]

  abbrev given : Country → Option ℕ → List Country → List Country
  given c none cs = cs
  given c (some rate) cs = update_where (has_country_code c.code) (with_rate rate) cs

  apply_all : List Country → List Country → List Country
  apply_all [] cs = cs
  apply_all (d ∷ ds) cs = apply_all ds (given d (new_rate s rates d) cs)

  abbrev pub one : Option ℕ → ℕ
  one none = 0
  one (some rate) = 1

  count_rates : List Country → ℕ
  count_rates [] = 0
  count_rates (d ∷ ds) = one (new_rate s rates d) + count_rates ds

  update_rate_lem :
      (d : Country) (o : Option ℕ) (x : Ext) (w : World)
      → ((l : Log) → x.fails (sql "admin.setRate" ∷ l) ≡ false)
      → ((update_rate s d o x w).0 ≡ ok (one o))
        × ((update_rate s d o x w).1.db
            ≡ record w.db { billing_countries = given d o w.db.billing_countries })
  unfolding update_rate
  update_rate_lem d none x w up = (refl, refl)
  update_rate_lem d (some rate) x w up = (ground (arith, up w.log), ground (arith, up w.log))

  -- The loop, where no update fails.
  update_rates_lem :
      (ds : List Country) (x : Ext) (w : World)
      → ((l : Log) → x.fails (sql "admin.setRate" ∷ l) ≡ false)
      → ((update_rates s rates ds x w).0 ≡ ok (count_rates ds))
        × ((update_rates s rates ds x w).1.db
            ≡ record w.db { billing_countries = apply_all ds w.db.billing_countries })
  unfolding update_rates apply_all count_rates
  update_rates_lem [] x w up = (refl, refl)
  update_rates_lem (d ∷ ds) x w up =
      let o = new_rate s rates d in
      let (value, tables) = update_rate_lem d o x w up in
      let (value', tables') = update_rates_lem ds x (update_rate s d o x w).1 up in
      (ground (arith, value, value'), ground (arith, value, tables, tables'))

  -- A country is not touched by the updates of others.
  untouched :
      (c : Country) (ds cs : List Country)
      → any_by (λ (d : Country). c.code =s= d.code) ds ≡ false
      → apply_all ds (c ∷ cs) ≡ c ∷ apply_all ds cs
  unfolding apply_all any_by update_where
  untouched c [] cs h = refl
  untouched c (d ∷ ds) cs h =
      let other : (c.code =s= d.code) ≡ false = ground arith in
      let rest : any_by (λ (d : Country). c.code =s= d.code) ds ≡ false = ground arith in
      elim (Option-cases (new_rate s rates d)) [
        | inl e ↦ rw (apply_all, e) (untouched c ds cs rest)
        | inr (rate, e) ↦
            rw (apply_all, e, update_where, other)
              (untouched c ds (update_where (has_country_code d.code) (with_rate rate) cs) rest)
      ]

  no_other :
      (c : Country) (cs : List Country) (f : Country → Country)
      → any_by (λ (d : Country). c.code =s= d.code) cs ≡ false
      → update_where (has_country_code c.code) f cs ≡ cs
  unfolding any_by update_where
  no_other c [] f h = refl
  no_other c (d ∷ cs) f h = ground (arith, no_other c cs f, differs_sym c.code d.code)

  floating_only :
      (c : Country) (cs : List Country)
      → any_by (λ (d : Country). c.code =s= d.code) cs ≡ false
      → any_by (λ (d : Country). c.code =s= d.code) (select_by is_floating cs) ≡ false
  unfolding any_by select_by
  floating_only c [] h = refl
  floating_only c (d ∷ cs) h = ground (arith, floating_only c cs)

  own_rate :
      (c : Country) (cs : List Country)
      → any_by (λ (d : Country). c.code =s= d.code) cs ≡ false
      → given c (new_rate s rates c) (c ∷ cs) ≡ rated c ∷ cs
  unfolding update_where
  own_rate c cs h = elim (Option-cases (new_rate s rates c)) [
    | inl e ↦ ground (arith, e)
    | inr (rate, e) ↦
        ground (arith, e, (eq_iff c.code c.code).1 refl, no_other c cs (with_rate rate) h)
  ]

  rated_keeps_code : (c : Country) → (rated c).code ≡ c.code
  rated_keeps_code c = ground arith

  all_updates :
      (cs : List Country)
      → AreUnique cs
      → apply_all (select_by is_floating cs) cs ≡ update_where is_floating rated cs
  unfolding apply_all select_by update_where
  all_updates [] unique = refl
  all_updates (c ∷ cs) unique =
      let fs = select_by is_floating cs in
      let rest = all_updates cs unique.1 in
      let apart = floating_only c cs unique.0 in
      elim (Bool-cases (is_floating c)) [
        | inl f ↦
            rw (f, apply_all, own_rate c cs unique.0)
              (untouched (rated c) fs cs (rw (rated_keeps_code c) apart)
                ∙ ap (λ t. rated c ∷ t) rest)
        | inr f ↦ rw f (untouched c fs cs apart ∙ ap (λ t. c ∷ t) rest)
      ]

  count_floating :
      (cs : List Country)
      → count_rates (select_by is_floating cs)
        ≡ sum_where is_floating (λ c. one (new_rate s rates c)) cs
  unfolding count_rates select_by sum_where
  count_floating [] = refl
  count_floating (c ∷ cs) = ground (arith, count_floating cs)

abbrev fetch : Log → Log
fetch l = http_get "https://api.exchangerate-api.com/v4/latest/XOF" ∷ l

abbrev listed : Log → Log
listed l = sql "admin.floatingCountries" ∷ fetch l

refresh_then_updates :
    {F : Type 0} (s : RateSource F) (x : Ext) (w : World) {r : String × F} {rs : List (String × F)}
    → s.rates (fetch w.log) ≡ r ∷ rs
    → x.fails (fetch w.log) ≡ false
    → x.fails (listed w.log) ≡ false
    → do_refresh_rates s x w
      ≡ update_rates s
          (r ∷ rs)
          (select_by is_floating w.db.billing_countries)
          x
          (record w { log = listed w.log })
unfolding do_refresh_rates
refresh_then_updates s x w e up_get up_query = ground (arith, e, up_get, up_query)

-- Where the service of the rates answers with some and no statement fails, a refresh is as one update:
-- each country whose currency floats and has a rate that is not 0 gets it, nothing else changes in the
-- tables, and the answer is the number of these countries. The codes of the countries are distinct.
pub do_refresh_rates-update_where :
    {F : Type 0} (s : RateSource F) (x : Ext) (w : World) {r : String × F} {rs : List (String × F)}
    → s.rates (fetch w.log) ≡ r ∷ rs
    → x.fails (fetch w.log) ≡ false
    → x.fails (listed w.log) ≡ false
    → ((l : Log) → x.fails (sql "admin.setRate" ∷ l) ≡ false)
    → AreUnique w.db.billing_countries
    → ((do_refresh_rates s x w).1.db ≡ update_countries is_floating (rated s (r ∷ rs)) w.db)
      × ((do_refresh_rates s x w).0
          ≡ ok (
              sum_where is_floating
                (λ c. one s (r ∷ rs) (new_rate s (r ∷ rs) c))
                w.db.billing_countries))
do_refresh_rates-update_where s x w {r = r} {rs = rs} e up_get up_query up unique =
    let cs = w.db.billing_countries in
    let w' : World = record w { log = listed w.log } in
    let (value, tables) = update_rates_lem s (r ∷ rs) (select_by is_floating cs) x w' up in
    rw (refresh_then_updates s x w {r = r} {rs = rs} e up_get up_query) (
      tables ∙ ap (λ t. record w.db { billing_countries = t }) (all_updates s (r ∷ rs) cs unique),
      value ∙ ap ok (count_floating s (r ∷ rs) cs),
    )
