-- ===== src/DateTime.antt =====
-- DatabaseConnector/DateTime.h and DateTime.cpp, class `DateTime`: its fields, the calendar functions,
-- the setters and the comparisons. A method that changes the object returns it.
pub mod Shift
pub mod Calendar
pub mod Store
pub mod DayOfYear
pub mod NoSuchDay
pub mod Setters
pub mod Order
pub mod Between
mod Tests
use operation_front_line.Common.{
  ℕ, zero, suc, ◌+◌, ◌%◌, Bool, true, false, not, ◌&&◌, ◌||◌, some, none, List, [], ◌∷◌, ltb, leb,
  ◌==◌, compare_field, eq_zero, lt_zero, if◌then◌else◌, u32, u16, sub32, get_elem?, ℤ, pos, negsuc,
}

pub record DateTime : Type 0 where
  pub year : ℕ
  pub month : ℕ
  pub day : ℕ
  pub hour : ℕ
  pub minute : ℕ
  pub second : ℕ
  pub millisecond : ℕ

abbrev pub date_time : ℕ → ℕ → ℕ → ℕ → ℕ → ℕ → ℕ → DateTime
date_time y mo d h mi s ms = record {
  year = y;
  month = mo;
  day = d;
  hour = h;
  minute = mi;
  second = s;
  millisecond = ms;
}

-- A call ends with a value, with an `InvalidDateTimeException` that names the seven fields, with an
-- index out of the table of month lengths, or, in the model alone, with a loop out of fuel.
pub data Result {ℓ} (A : Type ℓ) : Type ℓ where
  ok : A → Result A
  invalid_date_time : DateTime → Result A
  out_of_bounds exhausted : Result A

infixl 5 ◌>>=◌
abbrev pub ◌>>=◌ {ℓ κ} : {A : Type ℓ} {B : Type κ} → Result A → (A → Result B) → Result B
ok a >>= f = f a
invalid_date_time e >>= f = invalid_date_time e
out_of_bounds >>= f = out_of_bounds
exhausted >>= f = exhausted

-- `DEFAULT_MONTH` and `DEFAULT_DAY`
abbrev pub default_month : ℕ
default_month = 1

abbrev pub default_day : ℕ
default_day = 1

abbrev pub month_lengths : List ℕ
month_lengths = 31 ∷ 28 ∷ 31 ∷ 30 ∷ 31 ∷ 30 ∷ 31 ∷ 31 ∷ 30 ∷ 31 ∷ 30 ∷ 31 ∷ []

pub is_leap_year : ℕ → Bool
is_leap_year y = ((y % 4 == 0) && not (y % 100 == 0)) || (y % 400 == 0)

-- `MONTH_LENGTHS[_month - 1]`: the index wraps at month 0.
pub days_in_month : ℕ → ℕ → Result ℕ
days_in_month y m = elim (get_elem? month_lengths (sub32 m 1)) [
  | none ↦ out_of_bounds
  | some n ↦ ok (if (m == 2) && is_leap_year y then n + 1 else n)
]

pub days_in_year : ℕ → ℕ
days_in_year y = if is_leap_year y then 366 else 365

pub valid_date : ℕ → ℕ → ℕ → Result Bool
valid_date y m d =
    if (y == 0) || (m == 0) || (d == 0)
    then ok false
    else if ltb 12 m
    then ok false
    else days_in_month y m >>= λ n. ok (not (ltb n d))

-- The loop of `getDayOfYear` from `month` on.
pub sum_months : ℕ → ℕ → ℕ → ℕ → ℕ → Result ℕ
sum_months zero y limit month day_of_year = exhausted
sum_months (suc fuel) y limit month day_of_year =
    if ltb month limit
    then (days_in_month y month >>= λ n.
        sum_months fuel y limit (u32 (month + 1)) (u32 (day_of_year + n)))
    else ok day_of_year

pub get_day_of_year : ℕ → ℕ → ℕ → Result ℕ
get_day_of_year y m d = sum_months (suc m) y m 1 0 >>= λ n. ok (u16 (u32 (n + d)))

-- `setDateTime`, which both constructors from numbers, the copy constructor and `operator=` call.
pub set_date_time : ℕ → ℕ → ℕ → ℕ → ℕ → ℕ → ℕ → Result DateTime
set_date_time y mo d h mi s ms = valid_date y mo d >>= λ valid.
    if not valid || leb 24 h || leb 60 mi || leb 60 s || leb 1000 ms
    then invalid_date_time (date_time y mo d h mi s ms)
    else ok (date_time y mo d h mi s ms)

-- The copy constructor and `operator=`.
pub copy : DateTime → Result DateTime
copy t = set_date_time t.year t.month t.day t.hour t.minute t.second t.millisecond

pub set_date : DateTime → ℕ → ℕ → ℕ → Result DateTime
set_date t y m d = valid_date y m d >>= λ valid.
    if not valid
    then invalid_date_time (record t { year = y; month = m; day = d })
    else ok (record t { year = y; month = m; day = d })

pub set_time : DateTime → ℕ → ℕ → ℕ → ℕ → Result DateTime
set_time t h mi s ms =
    let t' : DateTime = record t { hour = h; minute = mi; second = s; millisecond = ms } in
    if leb 24 h || leb 60 mi || leb 60 s || leb 1000 ms then invalid_date_time t' else ok t'

pub set_year : DateTime → ℕ → Result DateTime
set_year t y =
    if y == 0
    then invalid_date_time (record t { year = y })
    else valid_date y t.month t.day >>= λ valid.
        if not valid
        then ok (record t { year = y; month = default_month; day = default_day })
        else ok (record t { year = y })

pub set_month : DateTime → ℕ → Result DateTime
set_month t m =
    if (m == 0) || ltb 12 m
    then invalid_date_time (record t { month = m })
    else days_in_month t.year m >>= λ n.
        if ltb n t.day
        then ok (record t { month = m; day = default_day })
        else ok (record t { month = m })

pub set_day : DateTime → ℕ → Result DateTime
set_day t d = days_in_month t.year t.month >>= λ n.
    if (d == 0) || ltb n d
    then invalid_date_time (record t { day = d })
    else ok (record t { day = d })

pub set_hour : DateTime → ℕ → Result DateTime
set_hour t h =
    if leb 24 h then invalid_date_time (record t { hour = h }) else ok (record t { hour = h })

pub set_minute : DateTime → ℕ → Result DateTime
set_minute t mi =
    if leb 60 mi
    then invalid_date_time (record t { minute = mi })
    else ok (record t { minute = mi })

pub set_second : DateTime → ℕ → Result DateTime
set_second t s =
    if leb 60 s then invalid_date_time (record t { second = s }) else ok (record t { second = s })

pub set_millisecond : DateTime → ℕ → Result DateTime
set_millisecond t ms =
    if leb 1000 ms
    then invalid_date_time (record t { millisecond = ms })
    else ok (record t { millisecond = ms })

pub day_of_year : DateTime → Result ℕ
day_of_year t = get_day_of_year t.year t.month t.day

-- The loop of `getReverseDayOfYear` from `month` on, with the month and the day that are left.
pub find_month : ℕ → ℕ → ℕ → ℕ → Result (ℕ × ℕ)
find_month zero y month left = exhausted
find_month (suc fuel) y month left =
    if ltb month 12
    then (days_in_month y month >>= λ n.
        let later = find_month fuel y (month + 1) (sub32 left n) in
        if leb left n then ok (month, left) else later)
    else ok (month, left)

-- The constructor's default time of day is midnight.
pub get_reverse_day_of_year : ℕ → ℕ → Result DateTime
get_reverse_day_of_year y n =
    find_month 12 y 1 n >>= λ found. set_date_time y found.0 found.1 0 0 0 0

pub set_day_of_year : DateTime → ℕ → Result DateTime
set_day_of_year t n = get_reverse_day_of_year t.year n >>= λ new_date.
    set_month t new_date.month >>= λ t'. set_day t' new_date.day

pub compare : DateTime → DateTime → ℤ
compare t rhs = compare_field t.year rhs.year (
    compare_field t.month rhs.month (
      compare_field t.day rhs.day (
        compare_field t.hour rhs.hour (
          compare_field t.minute rhs.minute (
            compare_field t.second rhs.second
              (compare_field t.millisecond rhs.millisecond (pos 0)))))))

pub equal : DateTime → DateTime → Bool
equal t rhs = if eq_zero (compare t rhs) then true else false

pub not_equal : DateTime → DateTime → Bool
not_equal t rhs = if not (eq_zero (compare t rhs)) then true else false

pub less : DateTime → DateTime → Bool
less t rhs = if lt_zero (compare t rhs) then true else false

pub less_equal : DateTime → DateTime → Bool
less_equal t rhs = if lt_zero (compare t rhs) || eq_zero (compare t rhs) then true else false

pub greater : DateTime → DateTime → Bool
greater t rhs = if not (lt_zero (compare t rhs) || eq_zero (compare t rhs)) then true else false

pub greater_equal : DateTime → DateTime → Bool
greater_equal t rhs = if not (lt_zero (compare t rhs)) then true else false
