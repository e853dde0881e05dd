-- ===== src/DateTime/Shift/Underflow.antt =====
-- `subtractDays` past January 1st of year 1: `_year--` goes to 0 and, from there, round to 2 ^ 32 - 1.
use mathlib.Core.Path.{subst}
use native.Mathlib.Decide.{dec_lt}
use operation_front_line.Common.{
  ℕ, zero, suc, ◌+◌, ◌-◌, ◌≤◌, ◌<◌, ◌≡◌, refl, ap, ◌∙◌, lt→ltb, ge→ltb, sub32, u32_mod, arith,
}
use operation_front_line.DateTime.{
  DateTime, Result, ok, invalid_date_time, days_in_year, set_year, set_day_of_year,
}
use operation_front_line.DateTime.Shift.{walk_back, subtract_days}
use operation_front_line.DateTime.Calendar.{
  IsValid, days_before_month, days_before_year, days_before_year-one, day_of_year_lem,
  day_of_year_range, ordinal,
}
use operation_front_line.DateTime.Store.{
  days_in_year_range, days_in_year-zero, days_in_year_last, copy_lem, set_year-zero, InYear,
  set_year-InYear,
}
use operation_front_line.DateTime.DayOfYear.{Dated, set_day_of_year-Dated}
use operation_front_line.DateTime.Shift.Walk.{days_before_year-pred, walk_back_last, walk_back-suc}

-- `r` goes on as the loop does at the end of year 0 with `left` days to take off.
record AtZero (left : ℕ) (r : Result (ℕ × ℕ)) : Type 0 where
  fuel : ℕ
  enough : left < fuel
  goes_on : r ≡ walk_back fuel left 0 366

walk_back-AtZero :
    (fuel days year day : ℕ)
    → 1 ≤ year
    → year < u32_mod
    → 1 ≤ day
    → day ≤ days_in_year year
    → days < fuel
    → days_before_year year + day ≤ days
    → days < u32_mod
    → AtZero (days - (days_before_year year + day)) (walk_back fuel days year day)
walk_back-AtZero zero days year day hy hw hd hl hf hn ho = absurd (omega arith)
walk_back-AtZero (suc fuel) days year day hy hw hd hl hf hn ho =
    rw (walk_back-suc fuel days year day hd (omega arith) ho hy hw) (elim (dec_lt 1 year) [
      | yes p ↦
          let step = days_before_year-pred year p in
          subst (λ n. AtZero n (walk_back fuel (days - day) (year - 1) (days_in_year (year - 1))))
            (omega (arith, step))
            (walk_back-AtZero fuel (days - day) (year - 1) (days_in_year (year - 1)) (omega arith)
              (omega arith) (omega (arith, days_in_year_range (year - 1))) (omega arith)
              (omega arith) (omega (arith, step)) (omega arith))
      | no p ↦
          let zeroth : year - 1 ≡ 0 = omega arith in
          let first : days_before_year year ≡ 0 =
            ap days_before_year (omega arith) ∙ days_before_year-one in
          record {
            fuel = fuel;
            enough = omega (arith, first);
            goes_on =
                rw (zeroth, days_in_year-zero)
                  (ap (λ n. walk_back fuel n 0 366) (omega (arith, first)));
          }
    ])

-- Within year 0 the loop stops there; past it, it stops in the last year that `unsigned int` has.
stop_in_zero :
    (fuel left : ℕ) → left < fuel → left < 366 → walk_back fuel left 0 366 ≡ ok (0, 366 - left)
stop_in_zero zero left h lt = absurd (omega arith)
stop_in_zero (suc fuel) left h lt =
    walk_back_last fuel left 0 366 h lt (omega (arith, days_in_year-zero))

step_past_zero :
    (fuel left : ℕ)
    → 366 ≤ left
    → left < u32_mod
    → walk_back (suc fuel) left 0 366 ≡ walk_back fuel (left - 366) (u32_mod - 1) 365
unfolding walk_back
step_past_zero fuel left h word =
    let rest : sub32 left 366 ≡ left - 366 = omega arith in
    rw (
      lt→ltb {a = 0} {b = left} (omega arith),
      ge→ltb {a = left} {b = 366} (omega arith),
      rest,
      days_in_year_last,
    )

stop_in_last :
    (fuel left : ℕ)
    → left < fuel
    → 366 ≤ left
    → left < 731
    → walk_back fuel left 0 366 ≡ ok (u32_mod - 1, 731 - left)
stop_in_last zero left h lo hi = absurd (omega arith)
stop_in_last (suc zero) left h lo hi = absurd (omega arith)
stop_in_last (suc (suc fuel)) left h lo hi =
    step_past_zero (suc fuel) left lo (omega arith)
    ∙ walk_back_last fuel (left - 366) (u32_mod - 1) 365 (omega arith) (omega arith)
        (omega (arith, days_in_year_last))
    ∙ ap (λ n. ok (u32_mod - 1, n)) (omega arith)

module _ (t : DateTime) (days : ℕ) (v : IsValid t) (word : days < u32_mod) where
  before :
      ordinal t ≤ days
      → AtZero
          (days - ordinal t)
          (walk_back (suc days) days t.year (days_before_month t.year t.month + t.day))
  before h =
      let range = day_of_year_range t.year t.month t.day v.date in
      subst
        (λ n.
          AtZero n (walk_back (suc days) days t.year (days_before_month t.year t.month + t.day)))
        (omega arith)
        (walk_back-AtZero (suc days) days t.year (days_before_month t.year t.month + t.day)
          v.date.year_pos v.word range.0 range.1 (omega arith) (omega arith) word)

  -- On a valid date and time, `subtractDays` by fewer than 2 ^ 32 days to one of the 366 days
  -- before January 1st of year 1 throws, and the exception names the date and time with year 0.
  pub subtract_days_refused :
      ordinal t ≤ days
      → days < ordinal t + 366
      → subtract_days t days ≡ invalid_date_time (record t { year = 0 })
  unfolding subtract_days
  subtract_days_refused lo hi =
      let at = before lo in
      rw (
        copy_lem t v,
        day_of_year_lem t v,
        at.goes_on,
        stop_in_zero at.fuel (days - ordinal t) at.enough (omega arith),
        set_year-zero t,
      )

  -- On a valid date and time, `subtractDays` by fewer than 2 ^ 32 days to one of the 365 days
  -- before those of year 0 throws nothing: it answers a day of the year 2 ^ 32 - 1.
  pub subtract_days_wraps :
      ordinal t + 366 ≤ days
      → days < ordinal t + 731
      → Dated t (u32_mod - 1) (ordinal t + 731 - days) (subtract_days t days)
  unfolding subtract_days
  subtract_days_wraps lo hi =
      rw (copy_lem t v, day_of_year_lem t v, at.goes_on, stopped, y.returns, d.returns)
        (record {
          date = d.date;
          returns = refl;
          valid = d.valid;
          year_is = d.year_is ∙ y.year_is;
          day_is = d.day_is;
          same_time = omega (arith, y.same_time, d.same_time);
        })
    where
      at :
          AtZero
            (days - ordinal t)
            (walk_back (suc days) days t.year (days_before_month t.year t.month + t.day))
      at = before (omega arith)

      n : ℕ
      n = ordinal t + 731 - days

      y : InYear t (u32_mod - 1) (set_year t (u32_mod - 1))
      y = set_year-InYear t (u32_mod - 1) v (omega arith) (omega arith)

      d : Dated y.date y.date.year n (set_day_of_year y.date n)
      d =
          set_day_of_year-Dated y.date n y.valid (omega arith)
            (omega (arith, ap days_in_year y.year_is, days_in_year_last))

      stopped : walk_back at.fuel (days - ordinal t) 0 366 ≡ ok (u32_mod - 1, n)
      stopped =
          stop_in_last at.fuel (days - ordinal t) at.enough (omega arith) (omega arith)
          ∙ ap (λ k. ok (u32_mod - 1, k)) (omega arith)
