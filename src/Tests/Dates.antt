-- ===== src/Tests/Dates.antt =====
-- The theorems on dates and stamped schedules, at a leap day.
use cellarkeep_server.Prelude.{
  some, List, [], ◌∷◌, map, pos, negsuc, ◌+ℤ◌, ltz, ◌≡◌, refl, arith, ◌↔◌, string_eq,
}
use cellarkeep_server.Domain.Schedule.{StepInput, stamp_schedule, anchor_start}
use cellarkeep_server.Domain.Schedule.Totals.{totals, dated, by_sort_index, stamp_schedule-totals}
use cellarkeep_server.Domain.Dates.{
  Civil, civil, is_civil, is_leap, days_in, next, previous, add_date, day_of, print_year, wide,
  number, parse, time, add, is_before,
}
use cellarkeep_server.Domain.Dates.Text.{IsWritten}
use cellarkeep_server.Domain.Dates.Sum.{add_sum}
use cellarkeep_server.Domain.Dates.Later.{is_before-add}
use cellarkeep_server.Domain.Dates.Parsing.{parse_iff}

abbrev february : Civil
february = civil (pos 2024) 2 28

february-IsWritten : IsWritten february
unfolding IsWritten is_civil days_in is_leap
february-IsWritten = (refl, (2024, refl, omega arith))

-- the texts that the arithmetic gives
add-leap : add "2024-02-28" (pos 2) ≡ "2024-03-01"
unfolding add time parse add_date day_of number print_year wide is_civil days_in is_leap next
    previous
add-leap = refl

add-back : add "2024-03-01" (negsuc 60) ≡ "2023-12-31"
unfolding add time parse add_date day_of number print_year wide is_civil days_in is_leap next
    previous
add-back = refl

-- the months of a year, and a century that is no leap year
months-days_in :
    map (days_in (pos 2023)) (1 ∷ 2 ∷ 3 ∷ 4 ∷ 5 ∷ 6 ∷ 7 ∷ 8 ∷ 9 ∷ 10 ∷ 11 ∷ 12 ∷ [])
    ≡ 31 ∷ 28 ∷ 31 ∷ 30 ∷ 31 ∷ 30 ∷ 31 ∷ 31 ∷ 30 ∷ 31 ∷ 30 ∷ 31 ∷ []
unfolding days_in is_leap
months-days_in = refl

add-century : add "2100-02-28" (pos 1) ≡ "2100-03-01"
unfolding add time parse add_date day_of number print_year wide is_civil days_in is_leap next
    previous
add-century = refl

-- A text that is no date stands for the zero time, and a year of five digits is no date any more.
add-no_date : add "2024-3-01" (pos 1) ≡ "0001-01-02"
unfolding add time parse add_date day_of number print_year wide is_civil days_in is_leap next
    previous
add-no_date = refl

add-five_digits : add (add "9999-12-31" (pos 1)) (pos 1) ≡ "0001-01-02"
unfolding add time parse add_date day_of number print_year wide is_civil days_in is_leap next
    previous
add-five_digits = refl

leap_day-IsWritten : IsWritten (add_date february (pos 1))
unfolding IsWritten is_civil days_in is_leap add_date next
leap_day-IsWritten = (refl, (2024, refl, omega arith))

first_march-IsWritten : IsWritten (add_date february (pos 2))
unfolding IsWritten is_civil days_in is_leap add_date next
first_march-IsWritten = (refl, (2024, refl, omega arith))

january-IsWritten : IsWritten (add_date february (negsuc 30))
unfolding IsWritten is_civil days_in is_leap add_date previous
january-IsWritten = (refl, (2024, refl, omega arith))

add_sum_example :
    add (add (day_of february) (pos 2)) (negsuc 30) ≡ add (day_of february) (pos 2 +ℤ negsuc 30)
add_sum_example = add_sum february (pos 2) (negsuc 30) february-IsWritten first_march-IsWritten

is_before-add_example :
    is_before (add (day_of february) (negsuc 30)) (add (day_of february) (pos 2))
    ≡ ltz (negsuc 30) (pos 2)
is_before-add_example =
    is_before-add february (negsuc 30) (pos 2) february-IsWritten january-IsWritten
      first_march-IsWritten

parse_iff_example :
    (parse "2024-02-28" ≡ some february) ↔ (IsWritten february × (day_of february ≡ "2024-02-28"))
parse_iff_example = parse_iff "2024-02-28" february

-- A step two days after the step before it, which is anchored at the start.
abbrev steps2 : List StepInput
steps2 =
    record {
      sort_index = pos 2;
      type = "rack";
      anchor = "previous";
      offset_days = pos 1;
      label = "Rack";
    }
    ∷ record {
      sort_index = pos 1;
      type = "pitch";
      anchor = anchor_start;
      offset_days = pos 1;
      label = "Pitch";
    }
    ∷ []

stamp_schedule-totals_example :
    stamp_schedule add steps2 (day_of february)
    ≡ map (dated february) (totals (pos 0) (by_sort_index steps2))
stamp_schedule-totals_example =
    stamp_schedule-totals february steps2 february-IsWritten
      (leap_day-IsWritten, (first_march-IsWritten, tt))
