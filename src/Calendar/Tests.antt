-- ===== src/Calendar/Tests.antt =====
-- One month from the last of January.
use technova_pos_api.Prelude.{◌+◌, ◌<◌, ◌≡◌, refl, ◌⊎◌, arith}
use technova_pos_api.Calendar.{CalendarDate, last_day, calculate_warranty_end_date}
use technova_pos_api.Calendar.Period.{IsDate, month_index, end_date_lem}

abbrev last_of_january : CalendarDate
last_of_january = record { year = 2024; month = 0; day = 31; time = 0 }

last_of_january-IsDate : IsDate last_of_january
unfolding last_day
last_of_january-IsDate = record {
  month_range = omega arith;
  day_positive = omega arith;
  day_range = omega arith;
}

one_month :
    calculate_warranty_end_date last_of_january 1
    ≡ record { year = 2024; month = 1; day = 29; time = 0 }
unfolding calculate_warranty_end_date last_day
one_month = refl

end_date_lem_example :
    let end = calculate_warranty_end_date last_of_january 1 in
    IsDate end
    × (month_index end ≡ month_index last_of_january + 1)
    × (end.time ≡ 0)
    × ((end.day ≡ 31) ⊎ ((end.day ≡ last_day end.year end.month) × (end.day < 31)))
end_date_lem_example = end_date_lem last_of_january 1 last_of_january-IsDate
