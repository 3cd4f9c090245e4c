-- ===== src/Core/Calendar.antt =====
-- crates/vault-core/src/lib.rs: `civil_from_epoch` and `format_rfc3339`; and `days_from_civil` of
-- crates/vault-crypto/src/tsa.rs, its inverse.
pub mod Bounds
pub mod RoundTrip
use Prim.Native.String.{◌++◌ as append}
use ubod.Base.{ℕ, ◌+◌, ◌-◌, ◌*◌, ◌/◌, ◌%◌, String, ltb, leb, if◌then◌else◌}
use ubod.Base.Int.{ℤ, pos, negsuc, pos_part, ◌+ℤ◌, ◌-ℤ◌, ◌*ℤ◌, div_euclid, rem_euclid}
use ubod.Base.Text.{decimal, pad}

pub record Civil : Type 0 where
  pub year : ℤ
  pub month : ℕ
  pub day : ℕ
  pub hour : ℕ
  pub minute : ℕ
  pub second : ℕ

-- The year of the era that the day of the era `doe` falls in.
pub year_of_era : ℕ → ℕ
year_of_era doe = (doe - doe / 1460 + doe / 36524 - doe / 146096) / 365

-- The first day of that year, Counted from the first day of the era.
abbrev pub year_start : ℕ → ℕ
year_start yoe = 365 * yoe + yoe / 4 - yoe / 100

pub day_of_year : ℕ → ℕ
unfolding year_of_era
day_of_year doe = doe - year_start (year_of_era doe)

-- Months are Counted from March.
abbrev pub month_index : ℕ → ℕ
month_index doy = (5 * doy + 2) / 153

abbrev pub month_of : ℕ → ℕ
month_of mp = if ltb mp 10 then mp + 3 else mp - 9

unfoldable pub civil_from_epoch : ℤ → Civil
unfolding day_of_year
civil_from_epoch secs =
    let days : ℤ = div_euclid secs 86400 in
    let rem : ℕ = rem_euclid secs 86400 in
    let z : ℤ = days +ℤ pos 719468 in
    let era : ℤ = div_euclid z 146097 in
    let doe : ℕ = rem_euclid z 146097 in
    let yoe : ℕ = year_of_era doe in
    let y : ℤ = pos yoe +ℤ era *ℤ 400 in
    let doy : ℕ = day_of_year doe in
    let mp : ℕ = month_index doy in
    let m : ℕ = month_of mp in
    record {
      year = if leb m 2 then y +ℤ pos 1 else y;
      month = m;
      day = doy - (153 * mp + 2) / 5 + 1;
      hour = rem / 3600;
      minute = rem % 3600 / 60;
      second = rem % 60;
    }

-- `days_from_civil` of the time stamp authority. The year of the era lies in 0 .. 399, so its
-- divisions are those of ℕ.
unfoldable pub days_from_civil : ℤ → ℕ → ℕ → ℤ
days_from_civil year m d =
    let y : ℤ = if leb m 2 then year -ℤ pos 1 else year in
    let era : ℤ = div_euclid y 400 in
    let yoe : ℕ = pos_part (y -ℤ era *ℤ 400) in
    let mp : ℕ = (m + 9) % 12 in
    let doy : ℤ = pos ((153 * mp + 2) / 5 + d) -ℤ pos 1 in
    let doe : ℤ = pos (yoe * 365 + yoe / 4 - yoe / 100) +ℤ doy in era *ℤ 146097 +ℤ doe -ℤ pos 719468

-- The year is below zero only before the year 0, which no clock of the program shows.
abbrev pub year_text : ℤ → String
year_text (pos n) = pad 4 (decimal n)
year_text (negsuc n) = append "-" (pad 3 (decimal (n + 1)))

unfoldable pub format_rfc3339 : ℤ → String
unfolding civil_from_epoch decimal pad
format_rfc3339 secs =
    let c = civil_from_epoch secs in
    append (year_text c.year) (
      append "-" (
        append (pad 2 (decimal c.month)) (
          append "-" (
            append (pad 2 (decimal c.day)) (
              append "T" (
                append (pad 2 (decimal c.hour)) (
                  append ":" (
                    append (pad 2 (decimal c.minute))
                      (append ":" (append (pad 2 (decimal c.second)) "Z"))))))))))
