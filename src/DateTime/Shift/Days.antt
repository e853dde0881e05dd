-- ===== src/DateTime/Shift/Days.antt =====
-- `addDays` and `subtractDays` move the day number by exactly that many days and keep the time of
-- day. Before January 1st of year 1 the year is taken below 0 and wraps round.
use mathlib.Core.Path.{subst}
use operation_front_line.Common.{
  ℕ, suc, ◌+◌, ◌-◌, ◌≤◌, ◌<◌, ◌≡◌, refl, ap, ◌∙◌, u32, u32_mod, arith,
}
use operation_front_line.DateTime.{
  DateTime, Result, ok, ◌>>=◌, days_in_year, set_year, set_day_of_year,
}
use operation_front_line.DateTime.Shift.{
  walk_back, walk_forward, set_year_and_day, add_days, subtract_days,
}
use operation_front_line.DateTime.Calendar.{
  IsValid, days_before_month, days_before_year, day_of_year_lem, day_of_year_range, ordinal,
}
use operation_front_line.DateTime.Store.{
  days_in_year_range, copy_lem, SameTime, InYear, set_year-InYear,
}
use operation_front_line.DateTime.DayOfYear.{Dated, set_day_of_year-Dated}
use operation_front_line.DateTime.Shift.Walk.{Reaches, walk_forward-Reaches, walk_back-Reaches}

-- `r` is the valid date with the day number `n`, at the time of day of `t`.
pub record OnDay (t : DateTime) (n : ℕ) (r : Result DateTime) : Type 0 where
  pub date : DateTime
  pub returns : r ≡ ok date
  pub valid : IsValid date
  pub ordinal_is : ordinal date ≡ n
  pub same_time : SameTime t date

-- Storing the year and the day that a loop reached gives the date with the day number that it kept.
store-OnDay :
    (t : DateTime) (n : ℕ) (r : Result (ℕ × ℕ))
    → IsValid t
    → Reaches n r
    → OnDay t n (r >>= λ found. set_year_and_day t found)
store-OnDay t n r v reached =
    rw (reached.returns, y.returns, d.returns)
      (record {
        date = d.date;
        returns = refl;
        valid = d.valid;
        ordinal_is =
            omega (arith, d.day_is, ap days_before_year (d.year_is ∙ y.year_is), reached.counted);
        same_time = omega (arith, y.same_time, d.same_time);
      })
  where
    y : InYear t reached.found.0 (set_year t reached.found.0)
    y = set_year-InYear t reached.found.0 v reached.year_pos reached.word

    d : Dated y.date y.date.year reached.found.1 (set_day_of_year y.date reached.found.1)
    d =
        set_day_of_year-Dated y.date reached.found.1 y.valid reached.day_in.0
          (omega (arith, reached.day_in, ap days_in_year y.year_is))

abbrev day_count : DateTime → ℕ
day_count t = days_before_month t.year t.month + t.day

day_count_range :
    (t : DateTime) → IsValid t → (1 ≤ day_count t) × (day_count t ≤ days_in_year t.year)
day_count_range t v = day_of_year_range t.year t.month t.day v.date

-- On a valid date and time, `addDays(n)` answers the valid one with the day number greater by n
-- and the same time of day, where the year and n sum up to less than 2 ^ 32 - 366.
pub add_days-OnDay :
    (t : DateTime) (days : ℕ)
    → IsValid t
    → t.year + 366 + days < u32_mod
    → OnDay t (ordinal t + days) (add_days t days)
unfolding add_days
add_days-OnDay t days v word =
    rw (copy_lem t v, day_of_year_lem t v, no_wrap)
      (store-OnDay t (ordinal t + days) _ v (
        subst
          (λ n. Reaches n (
            walk_forward (suc (day_count t + days)) t.year (days_in_year t.year)
              (day_count t + days)))
          (omega arith)
          (walk_forward-Reaches (suc (day_count t + days)) t.year (day_count t + days)
            v.date.year_pos (omega (arith, day_count_range t v)) (omega arith)
            (omega (arith, day_count_range t v, days_in_year_range t.year)))))
  where
    no_wrap : u32 (day_count t + days) ≡ day_count t + days
    no_wrap = omega (arith, day_count_range t v, days_in_year_range t.year)

-- On a valid date and time, `subtractDays(n)` answers the valid one with the day number smaller
-- by n and the same time of day, for n below the day number and below 2 ^ 32.
pub subtract_days-OnDay :
    (t : DateTime) (days : ℕ)
    → IsValid t
    → days < ordinal t
    → days < u32_mod
    → OnDay t (ordinal t - days) (subtract_days t days)
unfolding subtract_days
subtract_days-OnDay t days v h word =
    rw (copy_lem t v, day_of_year_lem t v)
      (store-OnDay t (ordinal t - days) _ v (
        subst (λ n. Reaches n (walk_back (suc days) days t.year (day_count t))) (omega arith)
          (walk_back-Reaches (suc days) days t.year (day_count t) v.date.year_pos v.word
            (day_count_range t v).0 (day_count_range t v).1 (omega arith) (omega arith) word)))
