-- ===== src/DateTime/Between/Elapsed.antt =====
-- What `timeBetween` counts and answers for two instants in order, as a duration.
use native.Mathlib.Decide.{dec_lt}
use operation_front_line.DateTime.Between.CountLoops.{
  days_loop_lem, years_loop_lem, years_loop_none,
}
use operation_front_line.Common.{
  ℕ, suc, ◌+◌, ◌-◌, ◌*◌, ◌/◌, ◌%◌, ◌≤◌, ◌<◌, ◌≡◌, refl, lt→ltb, ge→ltb, Bool, false, ltb,
  if◌then◌else◌, u32, u32_mod, arith,
}
use operation_front_line.DateTime.{DateTime, Result, ok, days_in_year}
use operation_front_line.DateTime.Calendar.{
  IsValid, days_before_month, days_before_year, ordinal, day_of_year_lem, day_of_year_range,
}
use operation_front_line.DateTime.Store.{days_in_year_range, copy_lem}
use operation_front_line.DateTime.Order.{year_mono}
use operation_front_line.DateTime.Shift.{add}
use operation_front_line.DateTime.Shift.Carry.{instant, Lands, Anything}
use operation_front_line.DateTime.Shift.Total.{add-Lands}
use operation_front_line.DateTime.Between.{
  blank, sub64, ms_of_day, years_loop, count_from, time_after,
}
use operation_front_line.DateTimeDuration
use operation_front_line.DateTimeDuration.{DateTimeDuration, set_is_negative}
use operation_front_line.DateTimeDuration.Normal.{
  IsNormal, Normalised, total_milliseconds, set_date_time_duration-Normalised,
}

-- `r` is a normal duration of `z` milliseconds, with that sign.
pub record Lasts (z : ℕ) (negative : Bool) (r : Result DateTimeDuration) : Type 0 where
  pub span : DateTimeDuration
  pub returns : r ≡ ok span
  pub normal : IsNormal span
  pub total : total_milliseconds span ≡ z
  pub sign : span.is_negative ≡ negative

abbrev pub day_count : DateTime → ℕ
day_count t = days_before_month t.year t.month + t.day

-- The days that the two loops count from `stop` to `t`.
abbrev pub year_days : DateTime → DateTime → ℕ
year_days t stop =
    if ltb stop.year t.year
    then day_count t + (days_before_year t.year - days_before_year (suc stop.year))
    else 0

abbrev pub counted : DateTime → DateTime → ℕ
counted t stop = year_days t stop + (day_count t - day_count stop)

-- The hours, minutes, seconds and milliseconds of less than a day make it up.
abbrev split : ℕ → ℕ
split n =
    u32 (n / 3600000) * 3600000
    + u32 (n % 3600000 / 60000) * 60000
    + u32 (n % 3600000 % 60000 / 1000) * 1000
    + u32 (n % 3600000 % 60000 % 1000)

split_lem : (n : ℕ) → n < 86400000 → split n ≡ n
split_lem n h = omega arith

module _ (t stop : DateTime) (v : IsValid t) (w : IsValid stop) (small : ordinal t + 367 < u32_mod)
    (later : stop.year ≤ t.year) where
  in_year : (1 ≤ day_count t) × (day_count t ≤ days_in_year t.year)
  in_year = day_of_year_range t.year t.month t.day v.date

  years_counted :
      years_loop (suc t.year) t.year (day_count t) stop.year t.year 0 ≡ ok (year_days t stop)
  years_counted = elim (dec_lt stop.year t.year) [
    | yes p ↦
        rw (lt→ltb p)
          (years_loop_lem t.year (day_count t) stop.year w.date.year_pos p v.word (omega arith))
    | no p ↦
        rw (ge→ltb p) (years_loop_none t.year t.year (day_count t) stop.year t.year 0 (omega arith))
  ]

  year_days-le : year_days t stop ≤ ordinal t
  year_days-le = elim (dec_lt stop.year t.year) [
    | yes p ↦ rw (lt→ltb p) (omega arith)
    | no p ↦ rw (ge→ltb p) (omega arith)
  ]

  counted-lt : counted t stop < u32_mod
  counted-lt = omega (arith, year_days-le, in_year, days_in_year_range t.year)

  count_from-Lasts :
      (total_ms : ℕ)
      → total_ms < 86400000
      → Lasts (counted t stop * 86400000 + total_ms) false (count_from t stop total_ms)
  unfolding count_from
  count_from-Lasts total_ms h =
      rw
        (
          day_of_year_lem t v,
          years_counted,
          day_of_year_lem stop w,
          days_loop_lem (suc (day_count t)) (day_count stop) (day_count t) (year_days t stop)
              (omega arith) (omega (arith, in_year, days_in_year_range t.year))
              (omega (arith, year_days-le, in_year, days_in_year_range t.year)),
          n.returns,
        )
        (record {
          span = n.next;
          returns = refl;
          normal = n.normal;
          total = omega (arith, n.total, split_lem total_ms h);
          sign = n.sign;
        })
    where
      hours : ℕ
      hours = u32 (total_ms / 3600000)

      minutes : ℕ
      minutes = u32 (total_ms % 3600000 / 60000)

      seconds : ℕ
      seconds = u32 (total_ms % 3600000 % 60000 / 1000)

      milliseconds : ℕ
      milliseconds = u32 (total_ms % 3600000 % 60000 % 1000)

      n :
          Normalised
            (counted t stop * 86400000
              + hours * 3600000
              + minutes * 60000
              + seconds * 1000
              + milliseconds)
            false
            (DateTimeDuration.set_date_time_duration blank
              (counted t stop)
              hours
              minutes
              seconds
              milliseconds
              false)
      n =
          set_date_time_duration-Normalised blank (counted t stop) hours minutes seconds
            milliseconds false (omega (arith, counted-lt, split_lem total_ms h))

-- `ms_of_day` does not wrap.
pub ms_of_day_lem :
    (t : DateTime)
    → IsValid t
    → (ms_of_day t ≡ t.hour * 3600000 + t.minute * 60000 + t.second * 1000 + t.millisecond)
      × (ms_of_day t < 86400000)
ms_of_day_lem t v = omega (arith, v.clock)

module _ (t rhs : DateTime) (v : IsValid t) (w : IsValid rhs) (small : ordinal t + 367 < u32_mod)
    (before : instant rhs ≤ instant t) where
  -- Where the time of day of `rhs` is not later, the loops stop at `rhs` itself.
  pub later_clock :
      ms_of_day rhs ≤ ms_of_day t
      → rhs.year ≤ t.year
      → Lasts (counted t rhs * 86400000 + (ms_of_day t - ms_of_day rhs)) false (time_after t rhs)
  unfolding time_after
  later_clock le y =
      let gap : sub64 (ms_of_day t) (ms_of_day rhs) ≡ ms_of_day t - ms_of_day rhs =
        omega (arith, ms_of_day_lem t v, ms_of_day_lem rhs w) in
      rw (ge→ltb {a = ms_of_day t} {b = ms_of_day rhs} (omega arith), copy_lem rhs w, gap)
        (count_from-Lasts t rhs v w small y (ms_of_day t - ms_of_day rhs)
          (omega (arith, ms_of_day_lem t v)))

  -- Where it is later, they stop a day after, and the day is made up from the times of day.
  pub next_day : Lands Anything rhs (instant rhs + 86400000) (add rhs 1 0 0 0 0)
  next_day = add-Lands rhs 1 0 0 0 0 w (omega (arith, v.clock, w.clock))

  pub next_day_year :
      ms_of_day t < ms_of_day rhs → (next_day.date.year ≤ t.year) × (rhs.year ≤ next_day.date.year)
  next_day_year lt = (
    year_mono t next_day.date v next_day.valid (
        omega (
          arith,
          next_day.instant_is,
          next_day.valid.clock,
          ms_of_day_lem t v,
          ms_of_day_lem rhs w,
        )),
    year_mono next_day.date rhs next_day.valid w
        (omega (arith, next_day.instant_is, next_day.valid.clock, w.clock)),
  )

  pub earlier_clock :
      ms_of_day t < ms_of_day rhs
      → Lasts
          (counted t next_day.date * 86400000 + (86400000 - (ms_of_day rhs - ms_of_day t)))
          false
          (time_after t rhs)
  unfolding time_after
  earlier_clock lt =
      let gap : sub64 86400000 (sub64 (ms_of_day rhs) (ms_of_day t))
          ≡ 86400000 - (ms_of_day rhs - ms_of_day t) =
        omega (arith, ms_of_day_lem t v, ms_of_day_lem rhs w) in
      rw
        (
          lt→ltb {a = ms_of_day t} {b = ms_of_day rhs} lt,
          next_day.returns,
          copy_lem next_day.date next_day.valid,
          gap,
        )
        (count_from-Lasts t next_day.date v next_day.valid small (next_day_year lt).0
          (86400000 - (ms_of_day rhs - ms_of_day t)) (omega arith))
