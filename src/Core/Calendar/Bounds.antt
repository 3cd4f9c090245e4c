-- ===== src/Core/Calendar/Bounds.antt =====
-- The ranges of the intermediate values of `civil_from_epoch`.
use ubod.Base.{ℕ, ◌+◌, ◌-◌, ◌*◌, ◌/◌, ◌≤◌, ◌<◌, ◌≡◌, arith}
use ubod.Core.Calendar.{year_of_era, year_start, day_of_year, month_index, month_of}

-- The day of the era lies in the year that `year_of_era` names, which has at most 366 days.
pub year_of_era_bounds :
    (doe : ℕ)
    → doe < 146097
    → (year_of_era doe < 400)
      × (year_start (year_of_era doe) ≤ doe)
      × (doe < year_start (year_of_era doe) + 366)
unfolding year_of_era
year_of_era_bounds doe h = omega arith

pub day_of_year_lem :
    (doe : ℕ)
    → doe < 146097
    → (year_start (year_of_era doe) + day_of_year doe ≡ doe) × (day_of_year doe < 366)
unfolding day_of_year
day_of_year_lem doe h = omega (arith, year_of_era_bounds doe h)

-- Months and days have the ranges of a date, and give the day of the year back.
pub month_day_lem :
    (doy : ℕ)
    → doy < 366
    → let m = month_of (month_index doy) in
      let d = doy - (153 * month_index doy + 2) / 5 + 1 in
      (1 ≤ m) × (m ≤ 12) × (1 ≤ d) × (d ≤ 31) × ((153 * month_index doy + 2) / 5 + d ≡ doy + 1)
month_day_lem doy h = ground arith
