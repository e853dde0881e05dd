-- ===== src/DateTime/Between.antt =====
-- DatabaseConnector/DateTime.cpp: `add` and `subtract` of a `DateTimeDuration`, and `timeBetween`.
pub mod Spans
pub mod CountLoops
pub mod Elapsed
pub mod Answer
use operation_front_line.Common.{
  ℕ, zero, suc, ◌+◌, ◌*◌, ◌/◌, ◌%◌, ◌-◌, ◌^◌, Bool, true, false, not, ltb, ◌==◌, if◌then◌else◌, u32,
  sub32, Outcome, done, fault, exhausted as ran_out,
}
use operation_front_line.DateTime.{
  DateTime, Result, ok, out_of_bounds, exhausted, ◌>>=◌, days_in_year, day_of_year, copy, equal,
  greater,
}
use operation_front_line.DateTime.Shift.{add, subtract}
use operation_front_line.DateTimeDuration
use operation_front_line.DateTimeDuration.{DateTimeDuration}

-- A call of the class `DateTimeDuration` inside one of `DateTime`.
abbrev pub lift {ℓ} : {A : Type ℓ} → Outcome A → Result A
lift (done a) = ok a
lift fault = out_of_bounds
lift ran_out = exhausted

-- The object that a constructor of `DateTimeDuration` fills; its fields are not read before.
abbrev pub blank : DateTimeDuration
blank = record {
  days = 0;
  hours = 0;
  minutes = 0;
  seconds = 0;
  milliseconds = 0;
  is_negative = false;
}

pub add_duration : DateTime → DateTimeDuration → Result DateTime
add_duration t dur =
    if dur.is_negative
    then subtract t dur.days dur.hours dur.minutes dur.seconds dur.milliseconds
    else add t dur.days dur.hours dur.minutes dur.seconds dur.milliseconds

pub subtract_duration : DateTime → DateTimeDuration → Result DateTime
subtract_duration t dur = lift (DateTimeDuration.copy blank dur) >>= λ tmp.
    add_duration t (DateTimeDuration.set_is_negative tmp (not dur.is_negative))

-- `MS_PER_SEC` to `MS_PER_DAY`
abbrev pub ms_per_sec : ℕ
ms_per_sec = 1000

abbrev pub ms_per_minute : ℕ
ms_per_minute = ms_per_sec * 60

abbrev pub ms_per_hour : ℕ
ms_per_hour = ms_per_minute * 60

abbrev pub ms_per_day : ℕ
ms_per_day = ms_per_hour * 24

-- `a - b` and the reduction to `unsigned long long int`.
abbrev pub u64 : ℕ → ℕ
u64 n = n % 2 ^ 64

abbrev pub sub64 : ℕ → ℕ → ℕ
sub64 a b = (a + 2 ^ 64 - b) % 2 ^ 64

-- `ms` and `rhs_ms`.
abbrev pub ms_of_day : DateTime → ℕ
ms_of_day t =
    u64 (t.hour * ms_per_hour + t.minute * ms_per_minute + t.second * ms_per_sec + t.millisecond)

-- The loop over the years, from `current` down: `year` and `day` are those of `*this`.
pub years_loop : ℕ → ℕ → ℕ → ℕ → ℕ → ℕ → Result ℕ
years_loop zero year day stop current total = exhausted
years_loop (suc fuel) year day stop current total =
    let counted = if current == year then day else days_in_year current in
    let rest = years_loop fuel year day stop (sub32 current 1) (u32 (total + counted)) in
    if ltb stop current then rest else ok total

-- The loop over the days of a year, from `current` down.
pub days_loop : ℕ → ℕ → ℕ → ℕ → Result ℕ
days_loop zero stop current total = exhausted
days_loop (suc fuel) stop current total =
    let rest = days_loop fuel stop (sub32 current 1) (u32 (total + 1)) in
    if ltb stop current then rest else ok total

-- The end of the last branch of `timeBetween`, with `stop_datetime` and `total_ms` known. Both loops
-- start at the day of the year of `*this`: the loop over the years resets the day to it.
pub count_from : DateTime → DateTime → ℕ → Result DateTimeDuration
count_from t stop_datetime total_ms = do
  let hours = u32 (total_ms / ms_per_hour)
  let minutes = u32 (total_ms % ms_per_hour / ms_per_minute)
  let seconds = u32 (total_ms % ms_per_hour % ms_per_minute / ms_per_sec)
  let milliseconds = u32 (total_ms % ms_per_hour % ms_per_minute % ms_per_sec)
  day ← day_of_year t
  year_days ← years_loop (suc t.year) t.year day stop_datetime.year t.year 0
  stop_day ← day_of_year stop_datetime
  total_days ← days_loop (suc day) stop_day day year_days
  lift (
      DateTimeDuration.set_date_time_duration blank total_days hours minutes seconds milliseconds
        false)

-- The last branch of `timeBetween`, for `rhs` before `*this`.
pub time_after : DateTime → DateTime → Result DateTimeDuration
time_after t rhs =
    let ms = ms_of_day t in
    let rhs_ms = ms_of_day rhs in
    if ltb ms rhs_ms
    then ((add rhs 1 0 0 0 0 >>= copy) >>= λ stop_datetime.
        count_from t stop_datetime (sub64 ms_per_day (sub64 rhs_ms ms)))
    else (copy rhs >>= λ stop_datetime. count_from t stop_datetime (sub64 ms rhs_ms))

-- `timeBetween` calls itself with the arguments swapped where `rhs` is later.
pub time_between_fuel : ℕ → DateTime → DateTime → Result DateTimeDuration
time_between_fuel zero t rhs = exhausted
time_between_fuel (suc fuel) t rhs =
    let swapped = time_between_fuel fuel rhs t in
    if equal rhs t
    then lift (DateTimeDuration.set_date_time_duration blank 0 0 0 0 0 false)
    else if greater rhs t
    then (swapped >>= λ dur. ok (DateTimeDuration.set_is_negative dur true))
    else time_after t rhs

pub time_between : DateTime → DateTime → Result DateTimeDuration
time_between t rhs = time_between_fuel 2 t rhs
