-- ===== src/DateTime/Between/Answer.antt =====
-- What `timeBetween` answers, within one year and across a year's end.
use mathlib.Core.Path.{subst}
use native.Mathlib.Decide.{dec_lt}
use operation_front_line.Common.{
  ℕ, suc, ◌+◌, ◌-◌, ◌*◌, ◌≤◌, ◌<◌, ◌≡◌, refl, ap, sym, lt→ltb, ge→ltb, order, inl, inr, ne→==,
  eq→==, true, false, ltb, u32_mod, arith,
}
use operation_front_line.DateTime.{DateTime, Result, ok, ◌>>=◌, days_in_year}
use operation_front_line.DateTime.Calendar.{
  IsValid, days_before_year, days_before_year-suc, ordinal, day_of_year_range,
}
use operation_front_line.DateTime.Order.{
  days_before_year_mono, earlier_year-instant, operators-instant,
}
use operation_front_line.DateTime.Shift.Carry.{instant}
use operation_front_line.DateTime.Between.{
  blank, ms_of_day, time_after, time_between_fuel, time_between,
}
use operation_front_line.DateTimeDuration
use operation_front_line.DateTimeDuration.{DateTimeDuration, set_is_negative}
use operation_front_line.DateTimeDuration.Normal.{Normalised, set_date_time_duration-Normalised}
use operation_front_line.DateTime.Between.Elapsed.{
  Lasts, day_count, counted, ms_of_day_lem, later_clock, next_day, next_day_year, earlier_clock,
}

counted_same :
    (t stop : DateTime) → stop.year ≡ t.year → counted t stop ≡ day_count t - day_count stop
counted_same t stop e = rw (ge→ltb {a = stop.year} {b = t.year} (omega arith)) (omega arith)

counted_years :
    (t stop : DateTime)
    → stop.year < t.year
    → counted t stop
      ≡ day_count t
        + (days_before_year t.year - days_before_year (suc stop.year))
        + (day_count t - day_count stop)
counted_years t stop lt = rw (lt→ltb lt) refl

module _ (t rhs : DateTime) (v : IsValid t) (w : IsValid rhs) (small : ordinal t + 367 < u32_mod)
    (before : instant rhs ≤ instant t) where
  same_year : rhs.year ≡ t.year → Lasts (instant t - instant rhs) false (time_after t rhs)
  same_year e = elim (dec_lt (ms_of_day t) (ms_of_day rhs)) [
    | yes lt ↦
        let next = next_day t rhs v w small before in
        let years = next_day_year t rhs v w small before lt in
        let same : next.date.year ≡ t.year = omega (arith, years) in
        subst (λ z. Lasts z false (time_after t rhs))
          (omega (
            arith,
            counted_same t next.date same,
            ap days_before_year same,
            next.instant_is,
            next.valid.clock,
            ms_of_day_lem t v,
            ms_of_day_lem rhs w,
          ))
          (earlier_clock t rhs v w small before lt)
    | no ge ↦
        subst (λ z. Lasts z false (time_after t rhs))
          (omega (
            arith,
            counted_same t rhs e,
            ap days_before_year e,
            ms_of_day_lem t v,
            ms_of_day_lem rhs w,
          ))
          (later_clock t rhs v w small before (omega arith) (omega arith))
  ]

  -- The days of the earlier year that are left after the day of `rhs`.
  abbrev rest_of_year : ℕ
  rest_of_year = days_in_year rhs.year - day_count rhs

  across_years :
      rhs.year < t.year
      → ms_of_day rhs ≤ ms_of_day t
      → Lasts
          (instant t
            - instant rhs
            + (day_count t - day_count rhs) * 86400000
            - rest_of_year * 86400000)
          false
          (time_after t rhs)
  across_years lt le =
      subst (λ z. Lasts z false (time_after t rhs))
        (omega (
          arith,
          counted_years t rhs lt,
          days_before_year-suc rhs.year w.date.year_pos,
          days_before_year_mono (suc rhs.year) t.year (omega arith) lt,
          day_of_year_range rhs.year rhs.month rhs.day w.date,
          ms_of_day_lem t v,
          ms_of_day_lem rhs w,
        ))
        (later_clock t rhs v w small before le (omega arith))

-- Which branch of `timeBetween` is taken.
between_same :
    (t rhs : DateTime) (fuel : ℕ)
    → IsValid t
    → IsValid rhs
    → instant rhs < instant t
    → time_between_fuel (suc fuel) t rhs ≡ time_after t rhs
unfolding time_between_fuel
between_same t rhs fuel v w lt =
    let o = operators-instant rhs t w v in
    rw (
      o.0,
      o.4,
      ne→== {a = instant rhs} {b = instant t} (omega arith),
      ge→ltb {a = instant t} {b = instant rhs} (omega arith),
    )

between_swapped :
    (t rhs : DateTime)
    → IsValid t
    → IsValid rhs
    → instant t < instant rhs
    → time_between t rhs ≡ (time_after rhs t >>= λ dur. ok (set_is_negative dur true))
unfolding time_between time_between_fuel
between_swapped t rhs v w lt =
    let o = operators-instant rhs t w v in
    let p = operators-instant t rhs v w in
    rw (
      o.0,
      o.4,
      p.0,
      p.4,
      ne→== {a = instant rhs} {b = instant t} (omega arith),
      lt→ltb {a = instant t} {b = instant rhs} lt,
      ne→== {a = instant t} {b = instant rhs} (omega arith),
      ge→ltb {a = instant rhs} {b = instant t} (omega arith),
    )

between_equal :
    (t rhs : DateTime)
    → IsValid t
    → IsValid rhs
    → instant t ≡ instant rhs
    → Lasts 0 false (time_between t rhs)
unfolding time_between time_between_fuel
between_equal t rhs v w e =
    let n : Normalised 0 false (DateTimeDuration.set_date_time_duration blank 0 0 0 0 0 false) =
      set_date_time_duration-Normalised blank 0 0 0 0 0 false (omega arith) in
    rw
      (
        (operators-instant rhs t w v).0,
        eq→== {a = instant rhs} {b = instant t} (omega arith),
        n.returns,
      )
      (record { span = n.next; returns = refl; normal = n.normal; total = n.total; sign = n.sign })

negated :
    (z : ℕ) (r : Result DateTimeDuration)
    → Lasts z false r
    → Lasts z true (r >>= λ dur. ok (set_is_negative dur true))
unfolding set_is_negative
negated z r l = rw l.returns (record {
  span = record l.span { is_negative = true };
  returns = refl;
  normal = record {
    hours_in = l.normal.hours_in;
    minutes_in = l.normal.minutes_in;
    seconds_in = l.normal.seconds_in;
    milliseconds_in = l.normal.milliseconds_in;
  };
  total = l.total;
  sign = refl;
})

-- For two valid dates and times of one year, with day numbers below 2 ^ 32 - 367, `timeBetween`
-- answers a normal duration of their distance in milliseconds, negative exactly when `rhs` is the
-- later one.
pub time_between_same_year :
    (t rhs : DateTime)
    → IsValid t
    → IsValid rhs
    → rhs.year ≡ t.year
    → ordinal t + 367 < u32_mod
    → ordinal rhs + 367 < u32_mod
    → Lasts
        (instant t - instant rhs + (instant rhs - instant t))
        (ltb (instant t) (instant rhs))
        (time_between t rhs)
unfolding time_between
time_between_same_year t rhs v w e small small' = elim (order (instant t) (instant rhs)) [
  | inl lt ↦
      rw (lt→ltb lt, between_swapped t rhs v w lt)
        (negated _ _ (
          subst (λ z. Lasts z false (time_after rhs t)) (omega arith)
            (same_year rhs t w v small' (omega arith) (sym e))))
  | inr (inl same) ↦
      rw (ge→ltb {a = instant t} {b = instant rhs} (omega arith)) (
        subst (λ z. Lasts z false (time_between t rhs)) (omega arith)
          (between_equal t rhs v w same))
  | inr (inr gt) ↦
      rw (ge→ltb {a = instant t} {b = instant rhs} (omega arith), between_same t rhs 1 v w gt)
        (subst (λ z. Lasts z false (time_after t rhs)) (omega arith)
          (same_year t rhs v w small (omega arith) e))
]

-- For two valid dates and times, `rhs` in an earlier year and at a time of day not later than
-- that of `t`, and the day number of `t` below 2 ^ 32 - 367, `timeBetween` answers a normal
-- duration: their distance in milliseconds, with the days by which the day of the year of `t` is
-- ahead of that of `rhs` added, if it is, and the days that the year of `rhs` has left after that
-- day taken off.
pub time_between_across_years :
    (t rhs : DateTime)
    → IsValid t
    → IsValid rhs
    → rhs.year < t.year
    → ms_of_day rhs ≤ ms_of_day t
    → ordinal t + 367 < u32_mod
    → Lasts
        (instant t
          - instant rhs
          + (day_count t - day_count rhs) * 86400000
          - (days_in_year rhs.year - day_count rhs) * 86400000)
        false
        (time_between t rhs)
unfolding time_between
time_between_across_years t rhs v w lt le small =
    let earlier : instant rhs < instant t = earlier_year-instant rhs t w v lt in
    rw (between_same t rhs 1 v w earlier)
      (across_years t rhs v w small (omega (arith, earlier)) lt le)
