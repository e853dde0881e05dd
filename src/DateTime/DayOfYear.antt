-- ===== src/DateTime/DayOfYear.antt =====
-- `getReverseDayOfYear` and `dayOfYear(n)`: the date with that day of the year.
use native.Mathlib.Decide.{dec_lt, dec_le}
use mathlib.Core.Path.{subst}
use native.Mathlib.Numerals.{add-one}
use native.Mathlib.Nat.{zero-add}
use operation_front_line.Common.{
  ge→ltb, gt→leb, ℕ, zero, suc, ◌+◌, ◌-◌, ◌≤◌, ◌<◌, ◌≡◌, refl, ap, sym, ◌∙◌, lt→ltb, ge→ltb, le→leb,
  gt→leb, ne→==, if◌then◌else◌, ltb, sub32, u32_mod, arith,
}
use operation_front_line.DateTime.{
  DateTime, date_time, Result, ok, days_in_year, set_date_time, set_month, set_day, find_month,
  get_reverse_day_of_year, set_day_of_year,
}
use operation_front_line.DateTime.Calendar.{
  IsDate, IsValid, is_date_iff, valid_date_lem, month_days, month_days-le, days_in_month_lem,
  days_before_month, twelve_months,
}
use operation_front_line.DateTime.Store.{days_in_year_range, SameTime}

record Found (y n : ℕ) (r : Result (ℕ × ℕ)) : Type 0 where
  found : ℕ × ℕ
  returns : r ≡ ok found
  month_in : (1 ≤ found.0) × (found.0 ≤ 12)
  day_in : (1 ≤ found.1) × (found.1 ≤ month_days y found.0)
  counted : days_before_month y found.0 + found.1 ≡ n

-- The loop of `getReverseDayOfYear` finds the month and the day of the month.
find_month-Found :
    (fuel y month left : ℕ)
    → 1 ≤ month
    → month + fuel ≡ 13
    → month ≤ 12
    → 1 ≤ left
    → days_before_month y month + left ≤ days_in_year y
    → Found y (days_before_month y month + left) (find_month fuel y month left)
unfolding find_month
find_month-Found zero y month left lo hf hi hl fits = absurd (omega arith)
find_month-Found (suc fuel) y month left lo hf hi hl fits = elim (dec_lt month 12) [
  | yes p ↦ elim (dec_le left (month_days y month)) [
    | yes q ↦
        rw (lt→ltb p, days_in_month_lem y month lo hi, le→leb q)
          (record {
            found = (month, left);
            returns = refl;
            month_in = (lo, hi);
            day_in = (hl, q);
            counted = refl;
          })
    | no q ↦
        let rest : sub32 left (month_days y month) ≡ left - month_days y month =
          omega (arith, days_in_year_range y, month_days-le y month) in
        rw (lt→ltb p, days_in_month_lem y month lo hi, gt→leb q, rest, add-one month)
          (subst (λ n. Found y n (find_month fuel y (suc month) (left - month_days y month)))
            (omega arith)
            (find_month-Found fuel y (suc month) (left - month_days y month) (omega arith)
              (omega arith) p (omega arith) (omega arith)))
  ]
  | no p ↦
      let last : month ≡ 12 = omega arith in
      rw (ge→ltb p) (record {
        found = (month, left);
        returns = refl;
        month_in = (lo, hi);
        day_in = (
          hl,
          omega (arith, twelve_months y, ap (month_days y) last, ap (days_before_month y) last),
        );
        counted = refl;
      })
]

-- `r` is a valid date and time on day `n` of year `y`, with the time of day of `t`.
pub record Dated (t : DateTime) (y n : ℕ) (r : Result DateTime) : Type 0 where
  pub date : DateTime
  pub returns : r ≡ ok date
  pub valid : IsValid date
  pub year_is : date.year ≡ y
  pub day_is : days_before_month date.year date.month + date.day ≡ n
  pub same_time : SameTime t date

-- `getReverseDayOfYear` finds the date with that day of the year, at midnight.
get_reverse_day_of_year-Dated :
    (y n : ℕ)
    → 1 ≤ y
    → y < u32_mod
    → 1 ≤ n
    → n ≤ days_in_year y
    → Dated (date_time 1 1 1 0 0 0 0) y n (get_reverse_day_of_year y n)
unfolding get_reverse_day_of_year set_date_time
get_reverse_day_of_year-Dated y n hy hw lo hi =
    rw (f.returns, valid_date_lem y f.found.0 f.found.1, (is_date_iff y f.found.0 f.found.1).1 date)
      (record {
        date = date_time y f.found.0 f.found.1 0 0 0 0;
        returns = refl;
        valid = record { date = date; clock = omega arith; word = hw };
        year_is = refl;
        day_is = f.counted;
        same_time = (refl, refl, refl, refl);
      })
  where
    f : Found y n (find_month 12 y 1 n)
    f =
        subst (λ k. Found y k (find_month 12 y 1 n)) (zero-add n)
          (find_month-Found 12 y 1 n (omega arith) refl (omega arith) lo (omega arith))

    date : IsDate y f.found.0 f.found.1
    date = record { year_pos = hy; month_in = f.month_in; day_in = f.day_in }

-- `month(m)` stores the month. A day that the month does not have becomes the 1st.
pub set_month_lem :
    (t : DateTime) (m : ℕ)
    → 1 ≤ m
    → m ≤ 12
    → set_month t m
      ≡ ok (record t { month = m; day = if ltb (month_days t.year m) t.day then 1 else t.day })
unfolding set_month
set_month_lem t m lo hi = ground (arith, days_in_month_lem t.year m lo hi)

-- `day(d)` stores a day that the month has.
set_day_lem :
    (t : DateTime) (d : ℕ)
    → 1 ≤ t.month
    → t.month ≤ 12
    → 1 ≤ d
    → d ≤ month_days t.year t.month
    → set_day t d ≡ ok (record t { day = d })
unfolding set_day
set_day_lem t d lo hi dl dh = rw (
  days_in_month_lem t.year t.month lo hi,
  ne→== {a = d} {b = 0} (omega arith),
  ge→ltb {a = month_days t.year t.month} {b = d} (omega arith),
)

-- On a valid date and time, for n from 1 to the length of its year, `dayOfYear(n)` stores the
-- valid one on day n of that year at the same time of day.
pub set_day_of_year-Dated :
    (t : DateTime) (n : ℕ)
    → IsValid t
    → 1 ≤ n
    → n ≤ days_in_year t.year
    → Dated t t.year n (set_day_of_year t n)
unfolding set_day_of_year
set_day_of_year-Dated t n v lo hi =
    rw
      (
        r.returns,
        set_month_lem t r.date.month month_in.0 month_in.1,
        set_day_lem moved r.date.day month_in.0 month_in.1 (r.valid.date.day_in.0) fits,
      )
      (record {
        date = record t { month = r.date.month; day = r.date.day };
        returns = refl;
        valid = record {
          date = record {
            year_pos = v.date.year_pos;
            month_in = month_in;
            day_in = (r.valid.date.day_in.0, fits);
          };
          clock = v.clock;
          word = v.word;
        };
        year_is = refl;
        day_is = ap (λ y. days_before_month y r.date.month + r.date.day) (sym r.year_is) ∙ r.day_is;
        same_time = (refl, refl, refl, refl);
      })
  where
    r : Dated (date_time 1 1 1 0 0 0 0) t.year n (get_reverse_day_of_year t.year n)
    r = get_reverse_day_of_year-Dated t.year n v.date.year_pos v.word lo hi

    month_in : (1 ≤ r.date.month) × (r.date.month ≤ 12)
    month_in = r.valid.date.month_in

    moved : DateTime
    moved = record t {
      month = r.date.month;
      day = if ltb (month_days t.year r.date.month) t.day then 1 else t.day;
    }

    fits : r.date.day ≤ month_days t.year r.date.month
    fits = omega (arith, r.valid.date.day_in, ap (λ y. month_days y r.date.month) r.year_is)
