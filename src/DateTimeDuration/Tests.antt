-- ===== src/DateTimeDuration/Tests.antt =====
-- Durations at concrete fields.
use operation_front_line.Common.{ℕ, ◌≡◌, Bool, true, false, arith}
use operation_front_line.DateTimeDuration.{
  DateTimeDuration, set_date_time_duration, equal, not_equal, less, less_equal, greater,
  greater_equal,
}
use operation_front_line.DateTimeDuration.Normal.{Normalised, set_date_time_duration-Normalised}
use operation_front_line.DateTimeDuration.Order.{operators-total_milliseconds}

abbrev duration : Bool → ℕ → DateTimeDuration
duration negative hours = record {
  days = 1;
  hours = hours;
  minutes = 2;
  seconds = 3;
  milliseconds = 4;
  is_negative = negative;
}

-- 0 days, 25 hours, 61 minutes, 61 seconds and 1001 milliseconds.
set_date_time_duration-Normalised_example :
    Normalised 93722001 true (set_date_time_duration (duration false 5) 0 25 61 61 1001 true)
set_date_time_duration-Normalised_example =
    set_date_time_duration-Normalised (duration false 5) 0 25 61 61 1001 true (omega arith)

-- A negative duration of more than a day is greater than a positive one that is an hour shorter.
operators-total_milliseconds_example :
    (equal (duration true 6) (duration false 5) ≡ false)
    × (not_equal (duration true 6) (duration false 5) ≡ true)
    × (less (duration true 6) (duration false 5) ≡ false)
    × (less_equal (duration true 6) (duration false 5) ≡ false)
    × (greater (duration true 6) (duration false 5) ≡ true)
    × (greater_equal (duration true 6) (duration false 5) ≡ true)
operators-total_milliseconds_example =
    operators-total_milliseconds (duration true 6) (duration false 5) (omega arith) (omega arith)
