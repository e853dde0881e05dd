-- ===== src/DateTimeDuration.antt =====
-- DatabaseConnector/DateTime.h and DateTime.cpp, class `DateTimeDuration`. A setter returns the object
-- that it changes. The setters of hours, minutes, seconds and milliseconds carry by loops; a loop
-- takes its argument plus one as fuel.
pub mod Normal
pub mod Minutes
pub mod Milliseconds
pub mod Order
mod Tests
use operation_front_line.Common.{
  ℕ, zero, suc, ◌+◌, ◌-◌, Bool, true, false, not, ◌&&◌, ◌||◌, ltb, leb, ◌==◌, compare_field,
  eq_zero, lt_zero, if◌then◌else◌, u32, sub32, Outcome, done, exhausted, ◌>>=◌, ℤ, pos, negsuc,
}

pub record DateTimeDuration : Type 0 where
  pub days : ℕ
  pub hours : ℕ
  pub minutes : ℕ
  pub seconds : ℕ
  pub milliseconds : ℕ
  pub is_negative : Bool

pub set_days : DateTimeDuration → ℕ → DateTimeDuration
set_days d n = record d { days = n }

unfoldable pub set_is_negative : DateTimeDuration → Bool → DateTimeDuration
set_is_negative d b = record d { is_negative = b }

pub hours_loop : ℕ → DateTimeDuration → ℕ → Outcome DateTimeDuration
unfolding set_days
hours_loop zero d n = exhausted
hours_loop (suc fuel) d n =
    let rest = hours_loop fuel (set_days d (u32 (d.days + 1))) (n - 24) in
    if leb 24 n then rest else done (record d { hours = n })

pub set_hours : DateTimeDuration → ℕ → Outcome DateTimeDuration
set_hours d n = hours_loop (suc n) d n

pub minutes_loop : ℕ → DateTimeDuration → ℕ → Outcome DateTimeDuration
minutes_loop zero d n = exhausted
minutes_loop (suc fuel) d n =
    let rest = λ (d' : DateTimeDuration). minutes_loop fuel d' (n - 60) in
    if leb 60 n then (set_hours d (u32 (d.hours + 1)) >>= rest) else done (record d { minutes = n })

pub set_minutes : DateTimeDuration → ℕ → Outcome DateTimeDuration
set_minutes d n = minutes_loop (suc n) d n

pub seconds_loop : ℕ → DateTimeDuration → ℕ → Outcome DateTimeDuration
seconds_loop zero d n = exhausted
seconds_loop (suc fuel) d n =
    let rest = λ (d' : DateTimeDuration). seconds_loop fuel d' (n - 60) in
    if leb 60 n
    then (set_minutes d (u32 (d.minutes + 1)) >>= rest)
    else done (record d { seconds = n })

pub set_seconds : DateTimeDuration → ℕ → Outcome DateTimeDuration
set_seconds d n = seconds_loop (suc n) d n

pub milliseconds_loop : ℕ → DateTimeDuration → ℕ → Outcome DateTimeDuration
milliseconds_loop zero d n = exhausted
milliseconds_loop (suc fuel) d n =
    let rest = λ (d' : DateTimeDuration). milliseconds_loop fuel d' (n - 1000) in
    if leb 1000 n
    then (set_seconds d (u32 (d.seconds + 1)) >>= rest)
    else done (record d { milliseconds = n })

pub set_milliseconds : DateTimeDuration → ℕ → Outcome DateTimeDuration
set_milliseconds d n = milliseconds_loop (suc n) d n

-- `setDateTimeDuration`, which the constructors, the copy constructor and `operator=` call.
pub set_date_time_duration : DateTimeDuration → ℕ → ℕ → ℕ → ℕ → ℕ → Bool → Outcome DateTimeDuration
set_date_time_duration d days hours minutes seconds milliseconds negative =
    set_hours (set_days (set_is_negative d negative) days) hours >>= λ with_hours.
    set_minutes with_hours minutes >>= λ with_minutes.
    set_seconds with_minutes seconds >>= λ with_seconds. set_milliseconds with_seconds milliseconds

-- The copy constructor and `operator=`, into the object `d`.
pub copy : DateTimeDuration → DateTimeDuration → Outcome DateTimeDuration
copy d rhs =
    set_date_time_duration d rhs.days rhs.hours rhs.minutes rhs.seconds rhs.milliseconds
      rhs.is_negative

pub is_zero : DateTimeDuration → Bool
is_zero d =
    if (d.days == 0)
      && (d.hours == 0)
      && (d.minutes == 0)
      && (d.seconds == 0)
      && (d.milliseconds == 0)
    then true
    else false

pub compare : DateTimeDuration → DateTimeDuration → ℤ
compare d rhs =
    if is_zero d && is_zero rhs
    then pos 0
    else compare_field d.days rhs.days (
        compare_field d.hours rhs.hours (
          compare_field d.minutes rhs.minutes (
            compare_field d.seconds rhs.seconds
              (compare_field d.milliseconds rhs.milliseconds (pos 0)))))

pub equal : DateTimeDuration → DateTimeDuration → Bool
equal d rhs = if eq_zero (compare d rhs) then true else false

pub not_equal : DateTimeDuration → DateTimeDuration → Bool
not_equal d rhs = if not (eq_zero (compare d rhs)) then true else false

pub less : DateTimeDuration → DateTimeDuration → Bool
less d rhs = if lt_zero (compare d rhs) then true else false

pub less_equal : DateTimeDuration → DateTimeDuration → Bool
less_equal d rhs = if lt_zero (compare d rhs) || eq_zero (compare d rhs) then true else false

pub greater : DateTimeDuration → DateTimeDuration → Bool
greater d rhs = if not (lt_zero (compare d rhs) || eq_zero (compare d rhs)) then true else false

pub greater_equal : DateTimeDuration → DateTimeDuration → Bool
greater_equal d rhs = if not (lt_zero (compare d rhs)) then true else false
