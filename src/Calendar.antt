-- ===== src/Calendar.antt =====
-- UTC calendar dates, and the end of a warranty: src/modules/sales/warranty-period.ts.
pub mod Period
mod Tests
use technova_pos_api.Prelude.{
  ℕ, ◌+◌, ◌*◌, ◌/◌, ◌%◌, min, Bool, true, false, ◌&&◌, ◌||◌, not, ◌==◌, if◌then◌else◌,
}

-- The UTC fields of a JavaScript `Date`: months from 0 to 11, days from 1, and the time of day.
pub record CalendarDate : Type 0 where
  pub year : ℕ
  pub month : ℕ
  pub day : ℕ
  pub time : ℕ

-- An instant, as milliseconds and as a calendar date.
pub record Moment : Type 0 where
  pub ms : ℕ
  pub date : CalendarDate

abbrev pub is_leap : ℕ → Bool
is_leap y = (y % 4 == 0 && not (y % 100 == 0)) || y % 400 == 0

-- The day of the month of the last day: `new Date(Date.UTC(y, m + 1, 0)).getUTCDate()`.
unfoldable pub last_day : ℕ → ℕ → ℕ
last_day y m =
    if m == 1
    then (if is_leap y then 29 else 28)
    else if m == 3 || m == 5 || m == 8 || m == 10
    then 30
    else 31

-- `setUTCMonth(getUTCMonth() + months)` on the first of a month.
abbrev pub month_after : CalendarDate → ℕ → ℕ
month_after d months = (d.month + months) % 12

abbrev pub year_after : CalendarDate → ℕ → ℕ
year_after d months = d.year + (d.month + months) / 12

unfoldable pub calculate_warranty_end_date : CalendarDate → ℕ → CalendarDate
calculate_warranty_end_date starts_at duration_months =
    let year = year_after starts_at duration_months in
    let month = month_after starts_at duration_months in
    record {
      year = year;
      month = month;
      day = min starts_at.day (last_day year month);
      time = starts_at.time;
    }
