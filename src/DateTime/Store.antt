-- ===== src/DateTime/Store.antt =====
-- Setters of `DateTime`: what each stores, and the date that `dayOfYear(n)` stores.
use operation_front_line.Common.{
  ℕ, ◌-◌, ◌≤◌, ◌<◌, ◌≡◌, refl, ne→==, Bool-cases, inl, inr, u32_mod, arith,
}
use operation_front_line.DateTime.{
  DateTime, Result, ok, invalid_date_time, is_leap_year, days_in_year, set_date_time, copy,
  set_year,
}
use operation_front_line.DateTime.Calendar.{IsValid, is_date, is_date_iff, valid_date_lem}

pub days_in_year_range : (y : ℕ) → (365 ≤ days_in_year y) × (days_in_year y ≤ 366)
unfolding days_in_year
days_in_year_range y = ground arith

pub days_in_year-zero : days_in_year 0 ≡ 366
unfolding days_in_year is_leap_year
days_in_year-zero = refl

pub days_in_year_last : days_in_year (u32_mod - 1) ≡ 365
unfolding days_in_year is_leap_year
days_in_year_last = refl

-- A valid date and time is copied as it is.
pub copy_lem : (t : DateTime) → IsValid t → copy t ≡ ok t
unfolding copy set_date_time
copy_lem t v =
    rw (valid_date_lem t.year t.month t.day, (is_date_iff t.year t.month t.day).1 v.date)
      (ground (arith, v.clock))

abbrev pub SameTime : DateTime → DateTime → Type 0
SameTime t u =
    (u.hour ≡ t.hour)
    × (u.minute ≡ t.minute)
    × (u.second ≡ t.second)
    × (u.millisecond ≡ t.millisecond)

-- `year(0)` is refused.
pub set_year-zero : (t : DateTime) → set_year t 0 ≡ invalid_date_time (record t { year = 0 })
unfolding set_year
set_year-zero t = refl

-- `r` is a valid date and time in year `y`, with the time of day of `t`.
pub record InYear (t : DateTime) (y : ℕ) (r : Result DateTime) : Type 0 where
  pub date : DateTime
  pub returns : r ≡ ok date
  pub valid : IsValid date
  pub year_is : date.year ≡ y
  pub same_time : SameTime t date

-- On a valid date and time, for a year from 1 to 2 ^ 32 - 1, `year(y)` stores a valid one in that
-- year at the same time of day.
pub set_year-InYear :
    (t : DateTime) (y : ℕ) → IsValid t → 1 ≤ y → y < u32_mod → InYear t y (set_year t y)
unfolding set_year
set_year-InYear t y v hy hw = elim (Bool-cases (is_date y t.month t.day)) [
  | inl e ↦
      rw (ne→== {a = y} {b = 0} (omega arith), valid_date_lem y t.month t.day, e)
        (record {
          date = record t { year = y };
          returns = refl;
          valid = record { date = (is_date_iff y t.month t.day).0 e; clock = v.clock; word = hw };
          year_is = refl;
          same_time = (refl, refl, refl, refl);
        })
  | inr e ↦
      rw (ne→== {a = y} {b = 0} (omega arith), valid_date_lem y t.month t.day, e)
        (record {
          date = record t { year = y; month = 1; day = 1 };
          returns = refl;
          valid = record { date = omega arith; clock = v.clock; word = hw };
          year_is = refl;
          same_time = (refl, refl, refl, refl);
        })
]
