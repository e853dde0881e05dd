-- ===== src/DateTime/NoSuchDay.antt =====
-- `dayOfYear(n)` and `getReverseDayOfYear` for a day that the year does not have.
use native.Mathlib.Decide.{dec_lt}
use native.Mathlib.Numerals.{add-one}
use operation_front_line.Common.{
  ge→ltb, gt→leb, Bool-cases, ◌⊎◌, inl, inr, false, ℕ, zero, suc, ◌+◌, ◌-◌, ◌≤◌, ◌<◌, ◌≡◌, refl, ap,
  lt→ltb, ge→ltb, gt→leb, sub32, u32_mod, arith,
}
use operation_front_line.DateTime.{
  invalid_date_time, DateTime, date_time, Result, ok, days_in_year, set_date_time, find_month,
  get_reverse_day_of_year, set_day_of_year,
}
use operation_front_line.DateTime.Calendar.{
  days_before_month_mono, is_date, IsDate, is_date_iff, valid_date_lem, month_days, month_days-le,
  days_in_month_lem, days_before_month, twelve_months,
}

-- Past the year's last day, or at 0, the loop stops at a day that the month does not have.
record Missed (y : ℕ) (r : Result (ℕ × ℕ)) : Type 0 where
  found : ℕ × ℕ
  returns : r ≡ ok found
  no_date : ¬ IsDate y found.0 found.1

find_month-Missed :
    (fuel y month left : ℕ)
    → 1 ≤ month
    → month + fuel ≡ 13
    → month ≤ 12
    → left < u32_mod
    → days_in_year y < days_before_month y month + left
    → Missed y (find_month fuel y month left)
unfolding find_month
find_month-Missed zero y month left lo hf hi hw past = absurd (omega arith)
find_month-Missed (suc fuel) y month left lo hf hi hw past = elim (dec_lt month 12) [
  | yes p ↦
      let more : month_days y month < left = omega (
        arith,
        twelve_months y,
        days_before_month_mono y (suc (suc month)) 13 (omega arith),
        days_before_month_mono y (suc month) 13 (omega arith),
      ) in
      let rest : sub32 left (month_days y month) ≡ left - month_days y month =
        omega (arith, month_days-le y month) in
      rw
        (
          lt→ltb p,
          days_in_month_lem y month lo hi,
          gt→leb {a = left} {b = month_days y month} (omega arith),
          rest,
          add-one month,
        )
        (find_month-Missed fuel y (suc month) (left - month_days y month) (omega arith)
          (omega arith) p (omega arith) (omega arith))
  | no p ↦
      let last : month ≡ 12 = omega arith in
      rw (ge→ltb p) (record {
        found = (month, left);
        returns = refl;
        no_date = λ d. omega (
          arith,
          d.day_in,
          twelve_months y,
          ap (month_days y) last,
          ap (days_before_month y) last,
        );
      })
]

at_zero : (y : ℕ) → Missed y (find_month 12 y 1 0)
unfolding find_month
at_zero y =
    rw (days_in_month_lem y 1 (omega arith) (omega arith))
      (record { found = (1, 0); returns = refl; no_date = λ d. omega (arith, d.day_in) })

-- `r` is the exception, and names no date.
pub record Refused (r : Result DateTime) : Type 0 where
  pub named : DateTime
  pub returns : r ≡ invalid_date_time named
  pub no_date : ¬ IsDate named.year named.month named.day

-- For a 32-bit n that is 0 or greater than the length of the year, `dayOfYear(n)` throws, and the
-- exception names what is no date.
pub set_day_of_year-Refused :
    (t : DateTime) (n : ℕ)
    → n < u32_mod
    → (n ≡ 0) ⊎ (days_in_year t.year < n)
    → Refused (set_day_of_year t n)
unfolding set_day_of_year get_reverse_day_of_year set_date_time
set_day_of_year-Refused t n w out =
    let m = missed t.year n w out in
    rw (m.returns, valid_date_lem t.year m.found.0 m.found.1, not_date m.no_date)
      (record {
        named = date_time t.year m.found.0 m.found.1 0 0 0 0;
        returns = refl;
        no_date = m.no_date;
      })
  where
    not_date : {m d : ℕ} → ¬ IsDate t.year m d → is_date t.year m d ≡ false
    not_date {m} {d} h = elim (Bool-cases (is_date t.year m d)) [
      | inl e ↦ absurd (h ((is_date_iff t.year m d).0 e))
      | inr e ↦ e
    ]

    missed :
        (y n : ℕ) → n < u32_mod → (n ≡ 0) ⊎ (days_in_year y < n) → Missed y (find_month 12 y 1 n)
    missed y n w (inr h) =
        find_month-Missed 12 y 1 n (omega arith) refl (omega arith) w (omega arith)
    missed y n w (inl e) = rw e (at_zero y)
