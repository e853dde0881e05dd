-- ===== src/DateTime/Calendar.antt =====
-- The Gregorian calendar by counting days, independent of the loops of `DateTime`, and what the
-- calendar functions answer in terms of it.
use native.Mathlib.Decide.{dec_lt}
use native.Mathlib.Nat.{le_refl}
use operation_front_line.Common.{
  ℕ, zero, suc, ◌+◌, ◌-◌, ◌*◌, ◌/◌, ◌%◌, false, ◌≤◌, ◌<◌, ◌≡◌, refl, ap, ◌∙◌, ◌↔◌, lt→ltb, ge→ltb,
  ◌&&◌, Bool, true, not, ◌||◌, ltb, ◌==◌, if◌then◌else◌, u32, u32_mod, arith,
}
use operation_front_line.DateTime.{
  DateTime, ok, is_leap_year, days_in_month, days_in_year, valid_date, sum_months, get_day_of_year,
  day_of_year,
}

-- The rule of the Gregorian calendar: of the years that 4 divides, those that 100 divides and 400 does not have
-- no leap day.
unfoldable pub gregorian_leap : ℕ → Bool
gregorian_leap y = if y % 400 == 0 then true else if y % 100 == 0 then false else y % 4 == 0

is_leap_year_lem : (y : ℕ) → is_leap_year y ≡ gregorian_leap y
unfolding is_leap_year gregorian_leap
is_leap_year_lem y = ground arith

abbrev pub month_days : ℕ → ℕ → ℕ
month_days y m =
    if m == 0
    then 0
    else if m == 2
    then (if gregorian_leap y then 29 else 28)
    else if (m == 4) || (m == 6) || (m == 9) || (m == 11)
    then 30
    else 31

-- The days of year `y` before month `m`.
abbrev pub days_before_month : ℕ → ℕ → ℕ
days_before_month y zero = 0
days_before_month y (suc m) = days_before_month y m + month_days y m

-- The days before year `y`, from year 1 on.
unfoldable pub days_before_year : ℕ → ℕ
days_before_year y = let p = y - 1 in p * 365 + p / 4 - p / 100 + p / 400

pub record IsDate (y m d : ℕ) : Type 0 where
  pub year_pos : 1 ≤ y
  pub month_in : (1 ≤ m) × (m ≤ 12)
  pub day_in : (1 ≤ d) × (d ≤ month_days y m)

pub record IsClock (h mi s ms : ℕ) : Type 0 where
  pub hour_in : h < 24
  pub minute_in : mi < 60
  pub second_in : s < 60
  pub millisecond_in : ms < 1000

-- A date of the calendar, a time of day, and a year that fits `unsigned int`.
pub record IsValid (t : DateTime) : Type 0 where
  pub date : IsDate t.year t.month t.day
  pub clock : IsClock t.hour t.minute t.second t.millisecond
  pub word : t.year < u32_mod

-- The day number of a date: 1 for January 1st of year 1.
abbrev pub day_number : ℕ → ℕ → ℕ → ℕ
day_number y m d = days_before_year y + days_before_month y m + d

abbrev pub ordinal : DateTime → ℕ
ordinal t = day_number t.year t.month t.day

month_cases {ℓ} :
    (P : ℕ → Type ℓ)
    → P 1
    → P 2
    → P 3
    → P 4
    → P 5
    → P 6
    → P 7
    → P 8
    → P 9
    → P 10
    → P 11
    → P 12
    → (m : ℕ) → 1 ≤ m
    → m ≤ 12
    → P m
month_cases P a b c d e f g h i j k l zero lo hi = absurd (omega arith)
month_cases P a b c d e f g h i j k l (suc zero) lo hi = a
month_cases P a b c d e f g h i j k l (suc (suc zero)) lo hi = b
month_cases P a b c d e f g h i j k l (suc (suc (suc zero))) lo hi = c
month_cases P a b c d e f g h i j k l (suc (suc (suc (suc zero)))) lo hi = d
month_cases P a b c d e f g h i j k l (suc (suc (suc (suc (suc zero))))) lo hi = e
month_cases P a b c d e f g h i j k l (suc (suc (suc (suc (suc (suc zero)))))) lo hi = f
month_cases P a b c d e f g h i j k l (suc (suc (suc (suc (suc (suc (suc zero))))))) lo hi = g
month_cases P a b c d e f g h i j k l (suc (suc (suc (suc (suc (suc (suc (suc zero)))))))) lo hi = h
month_cases P a b c d e f g h i j k l (suc (suc (suc (suc (suc (suc (suc (suc (suc zero))))))))) lo
      hi =
    i
month_cases P a b c d e f g h i j k l
      (suc (suc (suc (suc (suc (suc (suc (suc (suc (suc zero)))))))))) lo hi =
    j
month_cases P a b c d e f g h i j k l
      (suc (suc (suc (suc (suc (suc (suc (suc (suc (suc (suc zero))))))))))) lo hi =
    k
month_cases P a b c d e f g h i j k l
      (suc (suc (suc (suc (suc (suc (suc (suc (suc (suc (suc (suc zero)))))))))))) lo hi =
    l
month_cases P a b c d e f g h i j k l
      (suc (suc (suc (suc (suc (suc (suc (suc (suc (suc (suc (suc (suc n))))))))))))) lo hi =
    absurd (omega arith)

-- The table of month lengths and the leap day make up the calendar's months.
pub days_in_month_lem : (y m : ℕ) → 1 ≤ m → m ≤ 12 → days_in_month y m ≡ ok (month_days y m)
unfolding days_in_month
days_in_month_lem y =
    month_cases (λ m. days_in_month y m ≡ ok (month_days y m)) refl
      (rw (is_leap_year_lem y) (ground arith)) refl refl refl refl refl refl refl refl refl refl

abbrev pub is_date : ℕ → ℕ → ℕ → Bool
is_date y m d = ltb 0 y && ltb 0 m && not (ltb 12 m) && ltb 0 d && not (ltb (month_days y m) d)

pub is_date_iff : (y m d : ℕ) → (is_date y m d ≡ true) ↔ IsDate y m d
is_date_iff y m d = (λ e. ground arith, λ h. ground arith)

pub valid_date_lem : (y m d : ℕ) → valid_date y m d ≡ ok (is_date y m d)
unfolding valid_date
valid_date_lem y m d = ground (arith, days_in_month_lem y m)

-- For all numbers, `validDate` reads inside the table of month lengths and answers true exactly for a
-- year from 1 on, a month from 1 to 12 and a day from 1 to the length of the month, by the leap rule
-- of the Gregorian calendar.
pub valid_date-IsDate :
    (y m d : ℕ) → (b : Bool) × (valid_date y m d ≡ ok b) × ((b ≡ true) ↔ IsDate y m d)
valid_date-IsDate y m d = (is_date y m d, valid_date_lem y m d, is_date_iff y m d)

pub days_before_year-suc :
    (y : ℕ) → 1 ≤ y → days_before_year (suc y) ≡ days_before_year y + days_in_year y
unfolding days_before_year days_in_year is_leap_year
days_before_year-suc y h = ground arith

pub le-days_before_year : (y : ℕ) → y ≤ days_before_year y + 1
unfolding days_before_year
le-days_before_year y = omega arith

pub days_before_year-one : days_before_year 1 ≡ 0
unfolding days_before_year
days_before_year-one = refl

pub twelve_months : (y : ℕ) → days_before_month y 13 ≡ days_in_year y
unfolding days_in_year
twelve_months y = rw (is_leap_year_lem y) (ground arith)

pub month_days-le : (y m : ℕ) → month_days y m ≤ 31
month_days-le y m = ground arith

pub days_before_month-le : (y m : ℕ) → days_before_month y m ≤ 31 * m
days_before_month-le y zero = omega arith
days_before_month-le y (suc m) = omega (arith, days_before_month-le y m, month_days-le y m)

sum_months_lem :
    (fuel y limit month n : ℕ)
    → 1 ≤ month
    → month ≤ limit
    → limit ≤ 12
    → limit < month + fuel
    → n ≡ days_before_month y month
    → sum_months fuel y limit month n ≡ ok (days_before_month y limit)
unfolding sum_months
sum_months_lem zero y limit month n lo le hi hf e = absurd (omega arith)
sum_months_lem (suc fuel) y limit month n lo le hi hf e = elim (dec_lt month limit) [
  | yes p ↦
      let next : u32 (month + 1) ≡ suc month = omega arith in
      let sum : u32 (n + month_days y month) ≡ days_before_month y (suc month) =
        omega (arith, e, days_before_month-le y month, month_days-le y month) in
      rw (lt→ltb p, days_in_month_lem y month lo (omega arith), next)
        (sum_months_lem fuel y limit (suc month) (u32 (n + month_days y month)) (omega arith) p hi
          (omega arith) sum)
  | no p ↦
      let last : month ≡ limit = omega arith in
      rw (ge→ltb p) (ap ok (e ∙ ap (days_before_month y) last))
]

-- For a date of the calendar, `getDayOfYear` answers the days of the months before and the day
-- together.
pub get_day_of_year_lem :
    (y m d : ℕ) → IsDate y m d → get_day_of_year y m d ≡ ok (days_before_month y m + d)
unfolding get_day_of_year
get_day_of_year_lem y m d h =
    rw (sum_months_lem (suc m) y m 1 0 (omega arith) h.month_in.0 h.month_in.1 (omega arith) refl)
      (ap ok (omega (arith, h.month_in.1, h.day_in.1, days_before_month-le y m, month_days-le y m)))

pub day_of_year_lem :
    (t : DateTime) → IsValid t → day_of_year t ≡ ok (days_before_month t.year t.month + t.day)
unfolding day_of_year
day_of_year_lem t v = get_day_of_year_lem t.year t.month t.day v.date

pub days_before_month_mono : (y i j : ℕ) → i ≤ j → days_before_month y i ≤ days_before_month y j
days_before_month_mono y i zero h = rw (eq_zero h) (le_refl 0)
  where
    eq_zero : i ≤ 0 → i ≡ 0
    eq_zero h = omega arith
days_before_month_mono y i (suc j) h = elim (dec_lt j i) [
  | yes p ↦ let e : i ≡ suc j = omega arith in rw e (le_refl _)
  | no p ↦ omega (arith, days_before_month_mono y i j (omega arith))
]

-- The day of the year lies between 1 and the length of the year.
pub day_of_year_range :
    (y m d : ℕ)
    → IsDate y m d
    → (1 ≤ days_before_month y m + d) × (days_before_month y m + d ≤ days_in_year y)
day_of_year_range y m d h = omega (
  arith,
  twelve_months y,
  days_before_month_mono y (suc m) 13 (omega (arith, h.month_in.1)),
  h.day_in,
)
