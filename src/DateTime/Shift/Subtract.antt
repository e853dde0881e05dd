-- ===== src/DateTime/Shift/Subtract.antt =====
-- The subtractions of time: each lands exactly that many milliseconds back, as long as the answer is not
-- before January 1st of year 1.
use operation_front_line.Common.{ℕ, ◌+◌, ◌-◌, ◌*◌, ◌≤◌, ◌<◌, refl, u32_mod, arith}
use operation_front_line.DateTime.{DateTime}
use operation_front_line.DateTime.Shift.{
  carry_into, borrow, subtract_days, subtract_hours, subtract_minutes, subtract_seconds,
  subtract_milliseconds,
}
use operation_front_line.DateTime.Calendar.{IsValid, ordinal}
use operation_front_line.DateTime.Store.{copy_lem, SameTime}
use operation_front_line.DateTime.Shift.Days.{OnDay, subtract_days-OnDay}
use operation_front_line.DateTime.Shift.Carry.{
  instant, Lands, SameMinute, SameSecond, SameMillisecond, Anything, carry_into-Lands, Borrows,
  borrow_24, borrow_60, borrow_1000, set_hour_lem, set_minute_lem, set_second_lem,
  set_millisecond_lem,
}

pub subtract_days-Lands :
    (t : DateTime) (n : ℕ)
    → IsValid t
    → n < u32_mod
    → 86400000 + n * 86400000 ≤ instant t
    → Lands SameTime t (instant t - n * 86400000) (subtract_days t n)
subtract_days-Lands t n v word enough = record {
  date = d.date;
  returns = d.returns;
  valid = d.valid;
  instant_is = omega (arith, d.ordinal_is, d.same_time, v.clock, enough);
  kept = d.same_time;
}
  where
    d : OnDay t (ordinal t - n) (subtract_days t n)
    d = subtract_days-OnDay t n v (omega (arith, v.clock)) word

-- `subtractHours(n)` lands n hours back.
pub subtract_hours-Lands :
    (t : DateTime) (n : ℕ)
    → IsValid t
    → n < u32_mod
    → 86400000 + n * 3600000 ≤ instant t
    → Lands SameMinute t (instant t - n * 3600000) (subtract_hours t n)
unfolding subtract_hours
subtract_hours-Lands t n v word enough =
    rw (copy_lem t v, d.returns, set_hour_lem d.date c.1 k.field_in)
      (record {
        date = record d.date { hour = c.1 };
        returns = refl;
        valid = record {
          date = d.valid.date;
          clock = omega (arith, d.valid.clock, k.field_in);
          word = d.valid.word;
        };
        instant_is = omega (arith, d.instant_is, d.kept, k.total, fits, enough);
        kept = omega (arith, d.kept);
      })
  where
    c : ℕ × ℕ
    c = borrow 24 t.hour n

    k : Borrows 24 t.hour n c
    k = borrow_24 t.hour n v.clock.hour_in word

    fits : 86400000 + c.0 * 86400000 ≤ instant t
    fits = omega (arith, k.total, k.field_in, v.clock)

    d : Lands SameTime t (instant t - c.0 * 86400000) (carry_into subtract_days c.0 t)
    d =
        carry_into-Lands SameTime subtract_days t c.0 _ v (refl, refl, refl, refl)
          (λ e. omega arith) (λ p. subtract_days-Lands t c.0 v (omega (arith, k.no_more)) fits)

-- `subtractMinutes(n)` lands n minutes back.
pub subtract_minutes-Lands :
    (t : DateTime) (n : ℕ)
    → IsValid t
    → n < u32_mod
    → 86400000 + n * 60000 ≤ instant t
    → Lands SameSecond t (instant t - n * 60000) (subtract_minutes t n)
unfolding subtract_minutes
subtract_minutes-Lands t n v word enough =
    rw (copy_lem t v, d.returns, set_minute_lem d.date c.1 k.field_in)
      (record {
        date = record d.date { minute = c.1 };
        returns = refl;
        valid = record {
          date = d.valid.date;
          clock = omega (arith, d.valid.clock, k.field_in);
          word = d.valid.word;
        };
        instant_is = omega (arith, d.instant_is, d.kept, k.total, fits, enough);
        kept = omega (arith, d.kept);
      })
  where
    c : ℕ × ℕ
    c = borrow 60 t.minute n

    k : Borrows 60 t.minute n c
    k = borrow_60 t.minute n v.clock.minute_in word

    fits : 86400000 + c.0 * 3600000 ≤ instant t
    fits = omega (arith, k.total, k.field_in, v.clock)

    d : Lands SameMinute t (instant t - c.0 * 3600000) (carry_into subtract_hours c.0 t)
    d =
        carry_into-Lands SameMinute subtract_hours t c.0 _ v (refl, refl, refl) (λ e. omega arith)
          (λ p. subtract_hours-Lands t c.0 v (omega (arith, k.no_more)) fits)

-- `subtractSeconds(n)` lands n seconds back.
pub subtract_seconds-Lands :
    (t : DateTime) (n : ℕ)
    → IsValid t
    → n < u32_mod
    → 86400000 + n * 1000 ≤ instant t
    → Lands SameMillisecond t (instant t - n * 1000) (subtract_seconds t n)
unfolding subtract_seconds
subtract_seconds-Lands t n v word enough =
    rw (copy_lem t v, d.returns, set_second_lem d.date c.1 k.field_in)
      (record {
        date = record d.date { second = c.1 };
        returns = refl;
        valid = record {
          date = d.valid.date;
          clock = omega (arith, d.valid.clock, k.field_in);
          word = d.valid.word;
        };
        instant_is = omega (arith, d.instant_is, d.kept, k.total, fits, enough);
        kept = omega (arith, d.kept);
      })
  where
    c : ℕ × ℕ
    c = borrow 60 t.second n

    k : Borrows 60 t.second n c
    k = borrow_60 t.second n v.clock.second_in word

    fits : 86400000 + c.0 * 60000 ≤ instant t
    fits = omega (arith, k.total, k.field_in, v.clock)

    d : Lands SameSecond t (instant t - c.0 * 60000) (carry_into subtract_minutes c.0 t)
    d =
        carry_into-Lands SameSecond subtract_minutes t c.0 _ v (refl, refl) (λ e. omega arith)
          (λ p. subtract_minutes-Lands t c.0 v (omega (arith, k.no_more)) fits)

-- `subtractMilliseconds(n)` lands n milliseconds back.
pub subtract_milliseconds-Lands :
    (t : DateTime) (n : ℕ)
    → IsValid t
    → n < u32_mod
    → 86400000 + n ≤ instant t
    → Lands Anything t (instant t - n) (subtract_milliseconds t n)
unfolding subtract_milliseconds
subtract_milliseconds-Lands t n v word enough =
    rw (copy_lem t v, d.returns, set_millisecond_lem d.date c.1 k.field_in)
      (record {
        date = record d.date { millisecond = c.1 };
        returns = refl;
        valid = record {
          date = d.valid.date;
          clock = omega (arith, d.valid.clock, k.field_in);
          word = d.valid.word;
        };
        instant_is = omega (arith, d.instant_is, d.kept, k.total, fits, enough);
        kept = tt;
      })
  where
    c : ℕ × ℕ
    c = borrow 1000 t.millisecond n

    k : Borrows 1000 t.millisecond n c
    k = borrow_1000 t.millisecond n v.clock.millisecond_in word

    fits : 86400000 + c.0 * 1000 ≤ instant t
    fits = omega (arith, k.total, k.field_in, v.clock)

    d : Lands SameMillisecond t (instant t - c.0 * 1000) (carry_into subtract_seconds c.0 t)
    d =
        carry_into-Lands SameMillisecond subtract_seconds t c.0 _ v refl (λ e. omega arith)
          (λ p. subtract_seconds-Lands t c.0 v (omega (arith, k.no_more)) fits)
