-- ===== src/Calendar.antt =====
-- `time.Time.AddDate(0, 1, 0)` of Go's standard library, in UTC: the day of the month is kept, and
-- days past the end of the next month run on into the month after it.
use nexium_storage_back.Shared.{ℕ, ◌+◌, ◌-◌, ◌*◌, ◌/◌, ◌%◌, ◌≡◌, refl, ltb, if◌then◌else◌}

-- A date in the year that begins on the first of March: `month` counts from March, `day` from 0.
pub record MarchDate : Type 0 where
  pub year : ℕ
  pub month : ℕ
  pub day : ℕ

-- The days from the first of March of the year 0 to 1970-01-01.
abbrev epoch_days : ℕ
epoch_days = 719468

-- The days of the year before the first of the month.
abbrev month_start : ℕ → ℕ
month_start m = (153 * m + 2) / 5

year_of_era : ℕ → ℕ
year_of_era doe = (doe + doe / 36524 - doe / 1460 - doe / 146096) / 365

date_of_days : ℕ → MarchDate
unfolding year_of_era
date_of_days z =
    let doe : ℕ = z % 146097 in
    let yoe : ℕ = year_of_era doe in
    let doy : ℕ = doe - (365 * yoe + yoe / 4 - yoe / 100) in
    let m : ℕ = (5 * doy + 2) / 153 in
    record { year = z / 146097 * 400 + yoe; month = m; day = doy - month_start m }

-- The month and the day may be past their ends.
days_of_date : MarchDate → ℕ
days_of_date d =
    let y : ℕ = d.year + d.month / 12 in
    365 * y + y / 4 + y / 400 - y / 100 + month_start (d.month % 12) + d.day

unfoldable pub add_month : ℕ → ℕ
unfolding date_of_days days_of_date
add_month t =
    let d = date_of_days (t / 86400 + epoch_days) in
    (days_of_date (record d { month = d.month + 1 }) - epoch_days) * 86400 + t % 86400

-- `t.UTC().Format("2006-01")`, as the number year * 100 + month.
unfoldable pub year_month : ℕ → ℕ
unfolding date_of_days
year_month t =
    let d = date_of_days (t / 86400 + epoch_days) in
    if ltb d.month 10 then d.year * 100 + (d.month + 3) else (d.year + 1) * 100 + (d.month - 9)

pub record CivilDate : Type 0 where
  pub year : ℕ
  -- from 1
  pub month : ℕ
  pub day : ℕ

-- `t.Year()`, `t.Month()` and `t.Day()`.
unfoldable pub civil_date : ℕ → CivilDate
unfolding date_of_days
civil_date t =
    let d = date_of_days (t / 86400 + epoch_days) in
    record {
      year = if ltb d.month 10 then d.year else d.year + 1;
      month = if ltb d.month 10 then d.month + 3 else d.month - 9;
      day = d.day + 1;
    }

civil_date_example : civil_date 1769860800 ≡ record { year = 2026; month = 1; day = 31 }
unfolding civil_date
civil_date_example = refl

year_month_example : year_month 1769860800 ≡ 202601
unfolding year_month
year_month_example = refl

year_month_november : year_month 1764115200 ≡ 202511
unfolding year_month
year_month_november = refl

-- 2026-01-31 12:00:00 goes to 2026-03-03 12:00:00, and 2024-01-30 to 2024-03-01.
add_month_example : add_month 1769860800 ≡ 1772539200
unfolding add_month
add_month_example = refl

add_month_leap : add_month 1706572800 ≡ 1709251200
unfolding add_month
add_month_leap = refl

add_month_december : add_month 1798675200 ≡ 1801353600
unfolding add_month
add_month_december = refl
