-- ===== src/Calendar/Period.antt =====
-- The end of a warranty against the calendar (src/modules/sales/warranty-period.ts).
use technova_pos_api.Prelude.{ℕ, ◌+◌, ◌*◌, ◌≤◌, ◌<◌, ◌≡◌, refl, ◌⊎◌, arith}
use technova_pos_api.Calendar.{
  CalendarDate, last_day, calculate_warranty_end_date, year_after, month_after,
}

pub record IsDate (d : CalendarDate) : Type 0 where
  pub month_range : d.month < 12
  pub day_positive : 1 ≤ d.day
  pub day_range : d.day ≤ last_day d.year d.month

-- Months since the year 0.
abbrev pub month_index : CalendarDate → ℕ
month_index d = d.year * 12 + d.month

pub last_day_bounds : (y m : ℕ) → (28 ≤ last_day y m) × (last_day y m ≤ 31)
unfolding last_day
last_day_bounds y m = ground arith

-- The end of a warranty is a date of the calendar if its start is one. It lies just as many months
-- after the start as the policy says, at the same time of day, and on the same day of the month
-- or, where that month is too short, on its last day.
pub end_date_lem :
    (d : CalendarDate) (months : ℕ)
    → IsDate d
    → let end = calculate_warranty_end_date d months in
      IsDate end
      × (month_index end ≡ month_index d + months)
      × (end.time ≡ d.time)
      × ((end.day ≡ d.day) ⊎ ((end.day ≡ last_day end.year end.month) × (end.day < d.day)))
unfolding calculate_warranty_end_date
end_date_lem d months h =
    let (low, high) = last_day_bounds (year_after d months) (month_after d months) in
    (omega (arith, h.day_positive), omega arith, refl, ground arith)
