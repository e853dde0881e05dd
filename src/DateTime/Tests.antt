-- ===== src/DateTime/Tests.antt =====
-- The calendar, the shifts and the differences at concrete dates and times.
use operation_front_line.Common.{◌+◌, ◌-◌, ◌≡◌, ◌↔◌, Bool, refl, inr, true, false, u32_mod, arith}
use operation_front_line.DateTime.{
  DateTime, date_time, ok, ◌>>=◌, invalid_date_time, is_leap_year, days_in_year, valid_date,
  set_day_of_year, equal, not_equal, less, less_equal, greater, greater_equal,
}
use operation_front_line.DateTime.Calendar.{
  IsValid, days_before_year, valid_date-IsDate, IsDate, gregorian_leap,
}
use operation_front_line.DateTime.DayOfYear.{Dated, set_day_of_year-Dated}
use operation_front_line.DateTime.NoSuchDay.{Refused, set_day_of_year-Refused}
use operation_front_line.DateTime.Setters.{Safe, month, call, call-Safe}
use operation_front_line.DateTime.Order.{operators-instant}
use operation_front_line.DateTime.Shift.{subtract_days, add, subtract}
use operation_front_line.DateTime.Shift.Underflow.{subtract_days_refused, subtract_days_wraps}
use operation_front_line.DateTime.Shift.Carry.{instant, Lands, Anything}
use operation_front_line.DateTime.Shift.Total.{span, add-Lands, subtract-Lands}
use operation_front_line.DateTime.Between.{add_duration, subtract_duration, time_between}
use operation_front_line.DateTime.Between.Spans.{subtract_duration-add_duration}
use operation_front_line.DateTime.Between.Elapsed.{Lasts}
use operation_front_line.DateTime.Between.Answer.{time_between_same_year, time_between_across_years}
use operation_front_line.DateTimeDuration.{DateTimeDuration}

-- The last minute of a leap year's December 31st, the day after, and an early day of year 1.
abbrev new_years_eve : DateTime
new_years_eve = date_time 2020 12 31 23 59 30 250

abbrev new_year : DateTime
new_year = date_time 2021 1 1 23 59 40 0

abbrev first_days : DateTime
first_days = date_time 1 1 3 12 0 0 0

new_years_eve-IsValid : IsValid new_years_eve
new_years_eve-IsValid = ground arith

new_year-IsValid : IsValid new_year
new_year-IsValid = ground arith

first_days-IsValid : IsValid first_days
first_days-IsValid = ground arith

valid_date-IsDate_example :
    (b : Bool) × (valid_date 2021 2 29 ≡ ok b) × ((b ≡ true) ↔ IsDate 2021 2 29)
valid_date-IsDate_example = valid_date-IsDate 2021 2 29

set_day_of_year-Dated_example : Dated new_years_eve 2020 60 (set_day_of_year new_years_eve 60)
unfolding days_in_year is_leap_year gregorian_leap
set_day_of_year-Dated_example =
    set_day_of_year-Dated new_years_eve 60 new_years_eve-IsValid (omega arith) (omega arith)

set_day_of_year-Refused_example : Refused (set_day_of_year new_year 366)
unfolding days_in_year is_leap_year gregorian_leap
set_day_of_year-Refused_example =
    set_day_of_year-Refused new_year 366 (omega arith) (inr (omega arith))

call-Safe_example : Safe (call (month 13) new_year)
call-Safe_example = call-Safe (month 13) new_year new_year-IsValid tt

operators-instant_example :
    (equal new_years_eve new_year ≡ false)
    × (not_equal new_years_eve new_year ≡ true)
    × (less new_years_eve new_year ≡ true)
    × (less_equal new_years_eve new_year ≡ true)
    × (greater new_years_eve new_year ≡ false)
    × (greater_equal new_years_eve new_year ≡ false)
unfolding days_before_year is_leap_year gregorian_leap
operators-instant_example =
    operators-instant new_years_eve new_year new_years_eve-IsValid new_year-IsValid

subtract_days_refused_example :
    subtract_days first_days 5 ≡ invalid_date_time (date_time 0 1 3 12 0 0 0)
unfolding days_before_year
subtract_days_refused_example =
    subtract_days_refused first_days 5 first_days-IsValid (omega arith) (omega arith) (omega arith)

subtract_days_wraps_example : Dated first_days (u32_mod - 1) 334 (subtract_days first_days 400)
unfolding days_before_year
subtract_days_wraps_example =
    subtract_days_wraps first_days 400 first_days-IsValid (omega arith) (omega arith) (omega arith)

add-Lands_example :
    Lands Anything new_years_eve
      (instant new_years_eve + span 1 2 3 4 5)
      (add new_years_eve 1 2 3 4 5)
unfolding days_before_year is_leap_year gregorian_leap
add-Lands_example = add-Lands new_years_eve 1 2 3 4 5 new_years_eve-IsValid (omega arith)

subtract-Lands_example :
    Lands Anything new_year (instant new_year - span 1 2 3 4 5) (subtract new_year 1 2 3 4 5)
unfolding days_before_year is_leap_year gregorian_leap
subtract-Lands_example =
    subtract-Lands new_year 1 2 3 4 5 new_year-IsValid (omega arith) (omega arith)

abbrev one_day : DateTimeDuration
one_day = record {
  days = 1;
  hours = 0;
  minutes = 0;
  seconds = 9;
  milliseconds = 750;
  is_negative = false;
}

time_between_same_year_example :
    Lasts 86400000 false (time_between (date_time 2021 3 2 8 0 0 0) (date_time 2021 3 1 8 0 0 0))
unfolding days_before_year is_leap_year gregorian_leap
time_between_same_year_example =
    time_between_same_year (date_time 2021 3 2 8 0 0 0) (date_time 2021 3 1 8 0 0 0) (ground arith)
      (ground arith) refl (omega arith) (omega arith)

-- 24 hours pass from December 30th to December 31st and 2 days to January 1st, but the code answers 1.
time_between_across_years_example :
    Lasts 86400000 false (time_between (date_time 2021 1 1 8 0 0 0) (date_time 2020 12 30 8 0 0 0))
unfolding days_before_year days_in_year is_leap_year gregorian_leap
time_between_across_years_example =
    time_between_across_years (date_time 2021 1 1 8 0 0 0) (date_time 2020 12 30 8 0 0 0)
      (ground arith) (ground arith) (omega arith) (omega arith) (omega arith)

subtract_duration-add_duration_example :
    (add_duration new_years_eve one_day >>= λ u. subtract_duration u one_day) ≡ ok new_years_eve
unfolding days_before_year is_leap_year gregorian_leap
subtract_duration-add_duration_example =
    subtract_duration-add_duration new_years_eve one_day new_years_eve-IsValid (omega arith) refl
      (omega arith)
