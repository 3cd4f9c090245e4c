-- ===== src/Core/Calendar/RoundTrip.antt =====
-- `days_from_civil` undoes `civil_from_epoch`, so a formatted time stands for one second only.
use ubod.Base.{
  ℕ, ◌+◌, ◌-◌, ◌*◌, ◌/◌, ◌%◌, ◌≤◌, ◌<◌, ◌≡◌, arith, ap, ap₂, ◌∙◌, Bool-cases, leb, if◌then◌else◌,
  inl, inr,
}
use ubod.Base.Int.{
  ℤ, pos, negsuc, pos_part, ◌+ℤ◌, ◌-ℤ◌, ◌*ℤ◌, div_euclid, rem_euclid, int_laws, eq_of_parts,
}
use ubod.Core.Calendar.{
  Civil, civil_from_epoch, days_from_civil, year_of_era, day_of_year, month_index, month_of,
}
use ubod.Core.Calendar.Bounds.{year_of_era_bounds, day_of_year_lem, month_day_lem}

euclid_era : (z : ℤ) → div_euclid z 146097 *ℤ 146097 +ℤ pos (rem_euclid z 146097) ≡ z
unfolding ◌+ℤ◌ ◌*ℤ◌
euclid_era (pos n) = ground arith
euclid_era (negsuc n) = ground arith

euclid_day : (z : ℤ) → div_euclid z 86400 *ℤ 86400 +ℤ pos (rem_euclid z 86400) ≡ z
unfolding ◌+ℤ◌ ◌*ℤ◌
euclid_day (pos n) = ground arith
euclid_day (negsuc n) = ground arith

rem_era-lt : (z : ℤ) → rem_euclid z 146097 < 146097
rem_era-lt (pos n) = omega arith
rem_era-lt (negsuc n) = omega arith

div_era-add : (a : ℕ) (e : ℤ) → a < 400 → div_euclid (pos a +ℤ e *ℤ 400) 400 ≡ e
unfolding ◌+ℤ◌ ◌*ℤ◌
div_era-add a (pos n) h = ground arith
div_era-add a (negsuc n) h = ground arith

-- The year before its step to January is the year that counts from March.
march_year :
    (m : ℕ) (y : ℤ)
    → (if leb m 2
        then (if leb m 2 then y +ℤ pos 1 else y) -ℤ pos 1
        else (if leb m 2 then y +ℤ pos 1 else y))
      ≡ y
march_year m y = elim (Bool-cases (leb m 2)) [
  | inl e ↦ rw e (eq_of_parts (y +ℤ pos 1 -ℤ pos 1) y (omega int_laws))
  | inr e ↦ rw e
]

month_back : (doy : ℕ) → doy < 366 → (month_of (month_index doy) + 9) % 12 ≡ month_index doy
month_back doy h = ground arith

-- The parts of a date, put together from an era and a day of it.
module _ (era : ℤ) (doe : ℕ) (h : doe < 146097) where
  abbrev yoe : ℕ
  yoe = year_of_era doe

  abbrev y : ℤ
  y = pos yoe +ℤ era *ℤ 400

  abbrev doy : ℕ
  doy = day_of_year doe

  abbrev m : ℕ
  m = month_of (month_index doy)

  year_back : pos_part (y -ℤ era *ℤ 400) ≡ yoe
  year_back = ap pos_part (eq_of_parts (y -ℤ era *ℤ 400) (pos yoe) (omega int_laws))

  days_back :
      days_from_civil
        (if leb m 2 then y +ℤ pos 1 else y)
        m
        (doy - (153 * month_index doy + 2) / 5 + 1)
      ≡ era *ℤ 146097 +ℤ pos doe -ℤ pos 719468
  unfolding days_from_civil
  days_back =
      rw
        (
          march_year,
          div_era-add yoe era (year_of_era_bounds doe h).0,
          year_back,
          month_back _ (day_of_year_lem doe h).1,
        )
        (eq_of_parts _ _ (
          omega (
            int_laws,
            day_of_year_lem doe h,
            month_day_lem (day_of_year doe) (day_of_year_lem doe h).1,
          )))

rem_day-lt : (z : ℤ) → rem_euclid z 86400 < 86400
rem_day-lt (pos n) = omega arith
rem_day-lt (negsuc n) = omega arith

time_of_day :
    (secs : ℤ)
    → let c = civil_from_epoch secs in
      c.hour * 3600 + c.minute * 60 + c.second ≡ rem_euclid secs 86400
unfolding civil_from_epoch
time_of_day secs = omega arith

-- The day number of the date that `civil_from_epoch` gives is the day of the second.
days_from_civil-civil_from_epoch :
    (secs : ℤ)
    → let c = civil_from_epoch secs in days_from_civil c.year c.month c.day ≡ div_euclid secs 86400
unfolding civil_from_epoch
days_from_civil-civil_from_epoch secs =
    let z : ℤ = div_euclid secs 86400 +ℤ pos 719468 in
    days_back (div_euclid z 146097) (rem_euclid z 146097) (rem_era-lt z)
    ∙ ap (λ t. t -ℤ pos 719468) (euclid_era z)
    ∙ eq_of_parts (z -ℤ pos 719468) (div_euclid secs 86400) (omega int_laws)

-- The second that a date and a time of day stand for, as `parse_der_time` adds it up.
abbrev pub epoch_of : Civil → ℤ
epoch_of c =
    days_from_civil c.year c.month c.day *ℤ 86400 +ℤ pos (c.hour * 3600 + c.minute * 60 + c.second)

-- Any second since or before the epoch, turned into a date and time and back by the time stamp
-- authority's arithmetic, is the same second.
pub epoch_of-civil_from_epoch : (secs : ℤ) → epoch_of (civil_from_epoch secs) ≡ secs
epoch_of-civil_from_epoch secs =
    ap₂ (λ (d : ℤ) (t : ℕ). d *ℤ 86400 +ℤ pos t) (days_from_civil-civil_from_epoch secs)
      (time_of_day secs)
    ∙ euclid_day secs

-- Every date has a month of the year and a day that a month can have, and a time of the day.
pub civil_from_epoch_ranges :
    (secs : ℤ)
    → let c = civil_from_epoch secs in
      (1 ≤ c.month)
      × (c.month ≤ 12)
      × (1 ≤ c.day)
      × (c.day ≤ 31)
      × (c.hour < 24)
      × (c.minute < 60)
      × (c.second < 60)
unfolding civil_from_epoch
civil_from_epoch_ranges secs =
    let z : ℤ = div_euclid secs 86400 +ℤ pos 719468 in
    let doe : ℕ = rem_euclid z 146097 in
    omega (
      arith,
      rem_day-lt secs,
      month_day_lem (day_of_year doe) (day_of_year_lem doe (rem_era-lt z)).1,
    )
