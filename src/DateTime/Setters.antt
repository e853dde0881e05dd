-- ===== src/DateTime/Setters.antt =====
-- The setters of `DateTime` that take one call each, on a valid object.
use native.Mathlib.Decide.{dec_lt}
use operation_front_line.DateTime.Store.{set_year-InYear}
use operation_front_line.DateTime.DayOfYear.{set_month_lem}
use operation_front_line.Common.{
  if◌then◌else◌, ℕ, zero, suc, ◌<◌, ◌≡◌, refl, inl, inr, Bool-cases, le→leb, gt→leb, true, ◌||◌,
  ltb, leb, ◌==◌, u32_mod, arith,
}
use operation_front_line.DateTime.{
  DateTime, date_time, Result, ok, invalid_date_time, set_date_time, set_date, set_time, set_year,
  set_month, set_day, set_hour, set_minute, set_second, set_millisecond,
}
use operation_front_line.DateTime.Calendar.{
  IsValid, is_date, is_date_iff, valid_date_lem, days_in_month_lem, month_days,
}

pub data Setter : Type 0 where
  date : ℕ → ℕ → ℕ → Setter
  time : ℕ → ℕ → ℕ → ℕ → Setter
  date_and_time : ℕ → ℕ → ℕ → ℕ → ℕ → ℕ → ℕ → Setter
  year month day hour minute second millisecond : ℕ → Setter

unfoldable pub call : Setter → DateTime → Result DateTime
call (date y m d) t = set_date t y m d
call (time h mi s ms) t = set_time t h mi s ms
call (date_and_time y m d h mi s ms) t = set_date_time y m d h mi s ms
call (year y) t = set_year t y
call (month m) t = set_month t m
call (day d) t = set_day t d
call (hour h) t = set_hour t h
call (minute mi) t = set_minute t mi
call (second s) t = set_second t s
call (millisecond ms) t = set_millisecond t ms

-- A year that a setter stores is an `unsigned int`.
abbrev pub YearFits : Setter → Type 0
YearFits (date y m d) = y < u32_mod
YearFits (date_and_time y m d h mi s ms) = y < u32_mod
YearFits (year y) = y < u32_mod
YearFits s = Unit {0}

-- `r` is a valid date and time, or an exception that names what is none.
pub data Safe (r : Result DateTime) : Type 0 where
  stored : (u : DateTime) → r ≡ ok u → IsValid u → Safe r
  refused : (e : DateTime) → r ≡ invalid_date_time e → ¬ IsValid e → Safe r

set_date-Safe : (t : DateTime) (y m d : ℕ) → IsValid t → y < u32_mod → Safe (set_date t y m d)
unfolding set_date
set_date-Safe t y m d v w = elim (Bool-cases (is_date y m d)) [
  | inl e ↦
      stored (record t { year = y; month = m; day = d }) (rw (valid_date_lem y m d, e))
        (record { date = (is_date_iff y m d).0 e; clock = v.clock; word = w })
  | inr e ↦
      refused (record t { year = y; month = m; day = d }) (rw (valid_date_lem y m d, e))
        (λ h. ground (arith, (is_date_iff y m d).1 h.date))
]

set_time-Safe : (t : DateTime) (h mi s ms : ℕ) → IsValid t → Safe (set_time t h mi s ms)
unfolding set_time
set_time-Safe t h mi s ms v = elim (Bool-cases (leb 24 h || leb 60 mi || leb 60 s || leb 1000 ms)) [
  | inl e ↦
      refused (record t { hour = h; minute = mi; second = s; millisecond = ms }) (rw e)
        (λ k. ground (arith, k.clock))
  | inr e ↦
      stored (record t { hour = h; minute = mi; second = s; millisecond = ms }) (rw e)
        (record { date = v.date; clock = ground arith; word = v.word })
]

set_date_time-Safe : (y m d h mi s ms : ℕ) → y < u32_mod → Safe (set_date_time y m d h mi s ms)
unfolding set_date_time
set_date_time-Safe y m d h mi s ms w = elim (Bool-cases (is_date y m d)) [
  | inr e ↦
      refused (date_time y m d h mi s ms) (rw (valid_date_lem y m d, e))
        (λ k. ground (arith, (is_date_iff y m d).1 k.date))
  | inl e ↦ elim (Bool-cases (leb 24 h || leb 60 mi || leb 60 s || leb 1000 ms)) [
    | inl c ↦
        refused (date_time y m d h mi s ms) (rw (valid_date_lem y m d, e, c))
          (λ k. ground (arith, k.clock))
    | inr c ↦
        stored (date_time y m d h mi s ms) (rw (valid_date_lem y m d, e, c))
          (record { date = (is_date_iff y m d).0 e; clock = ground arith; word = w })
  ]
]

set_year-Safe : (t : DateTime) (y : ℕ) → IsValid t → y < u32_mod → Safe (set_year t y)
unfolding set_year
set_year-Safe t zero v w = refused (record t { year = 0 }) refl (λ k. omega (arith, k.date))
set_year-Safe t (suc y) v w =
    let r = set_year-InYear t (suc y) v (omega arith) w in stored r.date r.returns r.valid

set_month-Safe : (t : DateTime) (m : ℕ) → IsValid t → Safe (set_month t m)
unfolding set_month
set_month-Safe t m v = elim (Bool-cases ((m == 0) || ltb 12 m)) [
  | inl e ↦ refused (record t { month = m }) (out_of_year e) (λ k. ground (arith, k.date.month_in))
  | inr e ↦
      stored (record t { month = m; day = if ltb (month_days t.year m) t.day then 1 else t.day })
        (set_month_lem t m (ground arith) (ground arith))
        (record {
          date = record {
            year_pos = v.date.year_pos;
            month_in = ground arith;
            day_in = ground (arith, v.date.day_in);
          };
          clock = v.clock;
          word = v.word;
        })
]
  where
    out_of_year :
        (m == 0) || ltb 12 m ≡ true → set_month t m ≡ invalid_date_time (record t { month = m })
    out_of_year e = rw e

set_day-Safe : (t : DateTime) (d : ℕ) → IsValid t → Safe (set_day t d)
unfolding set_day
set_day-Safe t d v = elim (Bool-cases ((d == 0) || ltb (month_days t.year t.month) d)) [
  | inl e ↦
      refused (record t { day = d })
        (rw (days_in_month_lem t.year t.month v.date.month_in.0 v.date.month_in.1, e))
        (λ k. ground (arith, k.date.day_in))
  | inr e ↦
      stored (record t { day = d })
        (rw (days_in_month_lem t.year t.month v.date.month_in.0 v.date.month_in.1, e))
        (record {
          date = record {
            year_pos = v.date.year_pos;
            month_in = v.date.month_in;
            day_in = ground arith;
          };
          clock = v.clock;
          word = v.word;
        })
]

-- The setters of one field of the time of day: a bound test, and a clock.
field-Safe :
    (bound n : ℕ) (u : DateTime)
    → (n < bound → IsValid u)
    → (IsValid u → n < bound)
    → Safe (if leb bound n then invalid_date_time u else ok u)
field-Safe bound n u good bad = elim (dec_lt n bound) [
  | yes p ↦ stored u (rw (gt→leb {a = bound} {b = n} (omega arith))) (good p)
  | no p ↦ refused u (rw (le→leb {a = bound} {b = n} (omega arith))) (λ k. p (bad k))
]

module _ (t : DateTime) (n : ℕ) (v : IsValid t) where
  set_hour-Safe : Safe (set_hour t n)
  unfolding set_hour
  set_hour-Safe =
      field-Safe 24 n (record t { hour = n })
        (λ p. record { date = v.date; clock = omega (arith, v.clock); word = v.word })
        (λ k. k.clock.hour_in)

  set_minute-Safe : Safe (set_minute t n)
  unfolding set_minute
  set_minute-Safe =
      field-Safe 60 n (record t { minute = n })
        (λ p. record { date = v.date; clock = omega (arith, v.clock); word = v.word })
        (λ k. k.clock.minute_in)

  set_second-Safe : Safe (set_second t n)
  unfolding set_second
  set_second-Safe =
      field-Safe 60 n (record t { second = n })
        (λ p. record { date = v.date; clock = omega (arith, v.clock); word = v.word })
        (λ k. k.clock.second_in)

  set_millisecond-Safe : Safe (set_millisecond t n)
  unfolding set_millisecond
  set_millisecond-Safe =
      field-Safe 1000 n (record t { millisecond = n })
        (λ p. record { date = v.date; clock = omega (arith, v.clock); word = v.word })
        (λ k. k.clock.millisecond_in)

-- A call of any setter but `dayOfYear` on a valid date and time, with a year that fits 32 bits,
-- stores a valid one, or throws an exception that names values that are no date and time.
pub call-Safe : (s : Setter) (t : DateTime) → IsValid t → YearFits s → Safe (call s t)
unfolding call
call-Safe (date y m d) t v w = set_date-Safe t y m d v w
call-Safe (time h mi s ms) t v w = set_time-Safe t h mi s ms v
call-Safe (date_and_time y m d h mi s ms) t v w = set_date_time-Safe y m d h mi s ms w
call-Safe (year y) t v w = set_year-Safe t y v w
call-Safe (month m) t v w = set_month-Safe t m v
call-Safe (day d) t v w = set_day-Safe t d v
call-Safe (hour h) t v w = set_hour-Safe t h v
call-Safe (minute mi) t v w = set_minute-Safe t mi v
call-Safe (second s) t v w = set_second-Safe t s v
call-Safe (millisecond ms) t v w = set_millisecond-Safe t ms v
