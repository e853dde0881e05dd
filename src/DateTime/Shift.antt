-- ===== src/DateTime/Shift.antt =====
-- DatabaseConnector/DateTime.cpp: `addDays`, `subtractDays` and the shifts by hours, minutes, seconds
-- and milliseconds.
pub mod Walk
pub mod Days
pub mod Carry
pub mod Add
pub mod Subtract
pub mod Total
pub mod Underflow
use operation_front_line.Common.{ℕ, zero, suc, ◌+◌, ◌/◌, ◌%◌, ltb, leb, if◌then◌else◌, u32, sub32}
use operation_front_line.DateTime.{
  DateTime, Result, ok, exhausted, ◌>>=◌, days_in_year, day_of_year, copy, set_year,
  set_day_of_year, set_hour, set_minute, set_second, set_millisecond,
}

-- The loop of `subtractDays`. It answers the year and the day of the year that it reaches.
pub walk_back : ℕ → ℕ → ℕ → ℕ → Result (ℕ × ℕ)
walk_back zero days year day = exhausted
walk_back (suc fuel) days year day =
    let sooner = walk_back fuel (sub32 days day) (sub32 year 1) (days_in_year (sub32 year 1)) in
    let found = walk_back fuel 0 year (sub32 day days) in
    if ltb 0 days then (if ltb days day then found else sooner) else ok (year, day)

-- The loop of `addDays`.
pub walk_forward : ℕ → ℕ → ℕ → ℕ → Result (ℕ × ℕ)
walk_forward zero year days_in day = exhausted
walk_forward (suc fuel) year days_in day =
    let later =
      walk_forward fuel (u32 (year + 1)) (days_in_year (u32 (year + 1))) (sub32 day days_in) in
    if ltb days_in day then later else ok (year, day)

-- `tmp.year(_year); tmp.dayOfYear(_dayOfYear);`
abbrev pub set_year_and_day : DateTime → ℕ × ℕ → Result DateTime
set_year_and_day tmp found = set_year tmp found.0 >>= λ tmp'. set_day_of_year tmp' found.1

pub subtract_days : DateTime → ℕ → Result DateTime
subtract_days t days = do
  tmp ← copy t
  day ← day_of_year t
  found ← walk_back (suc days) days t.year day
  set_year_and_day tmp found

pub add_days : DateTime → ℕ → Result DateTime
add_days t days = do
  tmp ← copy t
  day ← day_of_year t
  found ← walk_forward (suc (u32 (day + days))) t.year (days_in_year t.year) (u32 (day + days))
  set_year_and_day tmp found

-- `if (n > 0) { tmp = tmp.shift(n); }`, with the copy that `operator=` makes.
abbrev pub carry_into : (DateTime → ℕ → Result DateTime) → ℕ → DateTime → Result DateTime
carry_into shift n tmp = if ltb 0 n then (shift tmp n >>= copy) else ok tmp

-- What a subtraction of `n` from a field of `base` values leaves in the field, and takes from the
-- next one; likewise an addition.
abbrev pub borrow : ℕ → ℕ → ℕ → ℕ × ℕ
borrow base current n =
    if ltb current (n % base)
    then (u32 (n / base + 1), sub32 base (sub32 (n % base) current))
    else (n / base, sub32 current (n % base))

abbrev pub carry : ℕ → ℕ → ℕ → ℕ × ℕ
carry base current n =
    if leb base (u32 (n % base + current))
    then (u32 (n / base + 1), u32 (n % base + current) % base)
    else (n / base, u32 (n % base + current))

pub subtract_hours : DateTime → ℕ → Result DateTime
subtract_hours t hours = do
  let (days, new_hour) = borrow 24 t.hour hours
  tmp ← copy t
  tmp' ← carry_into subtract_days days tmp
  set_hour tmp' new_hour

pub add_hours : DateTime → ℕ → Result DateTime
add_hours t hours = do
  let (days, new_hour) = carry 24 t.hour hours
  tmp ← copy t
  tmp' ← carry_into add_days days tmp
  set_hour tmp' new_hour

pub subtract_minutes : DateTime → ℕ → Result DateTime
subtract_minutes t minutes = do
  let (hours, new_minute) = borrow 60 t.minute minutes
  tmp ← copy t
  tmp' ← carry_into subtract_hours hours tmp
  set_minute tmp' new_minute

pub add_minutes : DateTime → ℕ → Result DateTime
add_minutes t minutes = do
  let (hours, new_minute) = carry 60 t.minute minutes
  tmp ← copy t
  tmp' ← carry_into add_hours hours tmp
  set_minute tmp' new_minute

pub subtract_seconds : DateTime → ℕ → Result DateTime
subtract_seconds t seconds = do
  let (minutes, new_second) = borrow 60 t.second seconds
  tmp ← copy t
  tmp' ← carry_into subtract_minutes minutes tmp
  set_second tmp' new_second

pub add_seconds : DateTime → ℕ → Result DateTime
add_seconds t seconds = do
  let (minutes, new_second) = carry 60 t.second seconds
  tmp ← copy t
  tmp' ← carry_into add_minutes minutes tmp
  set_second tmp' new_second

pub subtract_milliseconds : DateTime → ℕ → Result DateTime
subtract_milliseconds t milliseconds = do
  let (seconds, new_millisecond) = borrow 1000 t.millisecond milliseconds
  tmp ← copy t
  tmp' ← carry_into subtract_seconds seconds tmp
  set_millisecond tmp' new_millisecond

pub add_milliseconds : DateTime → ℕ → Result DateTime
add_milliseconds t milliseconds = do
  let (seconds, new_millisecond) = carry 1000 t.millisecond milliseconds
  tmp ← copy t
  tmp' ← carry_into add_seconds seconds tmp
  set_millisecond tmp' new_millisecond

-- `tmp = tmp.shift(n)`.
abbrev pub assign : Result DateTime → Result DateTime
assign r = r >>= copy

pub subtract : DateTime → ℕ → ℕ → ℕ → ℕ → ℕ → Result DateTime
subtract t days hours minutes seconds milliseconds = do
  tmp ← copy t
  t₁ ← assign (subtract_milliseconds tmp milliseconds)
  t₂ ← assign (subtract_seconds t₁ seconds)
  t₃ ← assign (subtract_minutes t₂ minutes)
  t₄ ← assign (subtract_hours t₃ hours)
  assign (subtract_days t₄ days)

pub add : DateTime → ℕ → ℕ → ℕ → ℕ → ℕ → Result DateTime
add t days hours minutes seconds milliseconds = do
  tmp ← copy t
  t₁ ← assign (add_milliseconds tmp milliseconds)
  t₂ ← assign (add_seconds t₁ seconds)
  t₃ ← assign (add_minutes t₂ minutes)
  t₄ ← assign (add_hours t₃ hours)
  assign (add_days t₄ days)
