-- ===== src/DateTime/Shift/Add.antt =====
-- The additions of time: each lands exactly that many milliseconds on.
use operation_front_line.Common.{ℕ, ◌+◌, ◌*◌, ◌<◌, refl, u32_mod, arith}
use operation_front_line.DateTime.{DateTime}
use operation_front_line.DateTime.Shift.{
  carry_into, carry, add_days, add_hours, add_minutes, add_seconds, add_milliseconds,
}
use operation_front_line.DateTime.Calendar.{IsValid, ordinal, le-days_before_year}
use operation_front_line.DateTime.Store.{copy_lem, SameTime}
use operation_front_line.DateTime.Shift.Days.{OnDay, add_days-OnDay}
use operation_front_line.DateTime.Shift.Carry.{
  instant, Lands, SameMinute, SameSecond, SameMillisecond, Anything, carry_into-Lands, Carries,
  carry_24, carry_60, carry_1000, set_hour_lem, set_minute_lem, set_second_lem, set_millisecond_lem,
}

-- The shift by `n` of its unit cannot carry the day number past 2 ^ 32.
abbrev pub Fits : DateTime → ℕ → Type 0
Fits t n = ordinal t + 366 + n < u32_mod

pub add_days-Lands :
    (t : DateTime) (n : ℕ)
    → IsValid t
    → Fits t n
    → Lands SameTime t (instant t + n * 86400000) (add_days t n)
add_days-Lands t n v fits = record {
  date = d.date;
  returns = d.returns;
  valid = d.valid;
  instant_is = omega (arith, d.ordinal_is, d.same_time);
  kept = d.same_time;
}
  where
    d : OnDay t (ordinal t + n) (add_days t n)
    d = add_days-OnDay t n v (omega (arith, le-days_before_year t.year, v.date.day_in))

-- `addHours(n)` lands n hours on.
pub add_hours-Lands :
    (t : DateTime) (n : ℕ)
    → IsValid t
    → Fits t n
    → Lands SameMinute t (instant t + n * 3600000) (add_hours t n)
unfolding add_hours
add_hours-Lands t n v fits =
    rw (copy_lem t v, d.returns, set_hour_lem d.date c.1 k.field_in)
      (record {
        date = record d.date { hour = c.1 };
        returns = refl;
        valid = record {
          date = d.valid.date;
          clock = omega (arith, d.valid.clock, k.field_in);
          word = d.valid.word;
        };
        instant_is = omega (arith, d.instant_is, d.kept, k.total);
        kept = omega (arith, d.kept);
      })
  where
    c : ℕ × ℕ
    c = carry 24 t.hour n

    k : Carries 24 t.hour n c
    k = carry_24 t.hour n v.clock.hour_in (omega arith)

    d : Lands SameTime t (instant t + c.0 * 86400000) (carry_into add_days c.0 t)
    d =
        carry_into-Lands SameTime add_days t c.0 _ v (refl, refl, refl, refl) (λ e. omega arith)
          (λ p. add_days-Lands t c.0 v (omega (arith, k.no_more)))

-- `addMinutes(n)` lands n minutes on.
pub add_minutes-Lands :
    (t : DateTime) (n : ℕ)
    → IsValid t
    → Fits t n
    → Lands SameSecond t (instant t + n * 60000) (add_minutes t n)
unfolding add_minutes
add_minutes-Lands t n v fits =
    rw (copy_lem t v, d.returns, set_minute_lem d.date c.1 k.field_in)
      (record {
        date = record d.date { minute = c.1 };
        returns = refl;
        valid = record {
          date = d.valid.date;
          clock = omega (arith, d.valid.clock, k.field_in);
          word = d.valid.word;
        };
        instant_is = omega (arith, d.instant_is, d.kept, k.total);
        kept = omega (arith, d.kept);
      })
  where
    c : ℕ × ℕ
    c = carry 60 t.minute n

    k : Carries 60 t.minute n c
    k = carry_60 t.minute n v.clock.minute_in (omega arith)

    d : Lands SameMinute t (instant t + c.0 * 3600000) (carry_into add_hours c.0 t)
    d =
        carry_into-Lands SameMinute add_hours t c.0 _ v (refl, refl, refl) (λ e. omega arith)
          (λ p. add_hours-Lands t c.0 v (omega (arith, k.no_more)))

-- `addSeconds(n)` lands n seconds on.
pub add_seconds-Lands :
    (t : DateTime) (n : ℕ)
    → IsValid t
    → Fits t n
    → Lands SameMillisecond t (instant t + n * 1000) (add_seconds t n)
unfolding add_seconds
add_seconds-Lands t n v fits =
    rw (copy_lem t v, d.returns, set_second_lem d.date c.1 k.field_in)
      (record {
        date = record d.date { second = c.1 };
        returns = refl;
        valid = record {
          date = d.valid.date;
          clock = omega (arith, d.valid.clock, k.field_in);
          word = d.valid.word;
        };
        instant_is = omega (arith, d.instant_is, d.kept, k.total);
        kept = omega (arith, d.kept);
      })
  where
    c : ℕ × ℕ
    c = carry 60 t.second n

    k : Carries 60 t.second n c
    k = carry_60 t.second n v.clock.second_in (omega arith)

    d : Lands SameSecond t (instant t + c.0 * 60000) (carry_into add_minutes c.0 t)
    d =
        carry_into-Lands SameSecond add_minutes t c.0 _ v (refl, refl) (λ e. omega arith)
          (λ p. add_minutes-Lands t c.0 v (omega (arith, k.no_more)))

-- `addMilliseconds(n)` lands n milliseconds on.
pub add_milliseconds-Lands :
    (t : DateTime) (n : ℕ)
    → IsValid t
    → Fits t n
    → Lands Anything t (instant t + n) (add_milliseconds t n)
unfolding add_milliseconds
add_milliseconds-Lands t n v fits =
    rw (copy_lem t v, d.returns, set_millisecond_lem d.date c.1 k.field_in)
      (record {
        date = record d.date { millisecond = c.1 };
        returns = refl;
        valid = record {
          date = d.valid.date;
          clock = omega (arith, d.valid.clock, k.field_in);
          word = d.valid.word;
        };
        instant_is = omega (arith, d.instant_is, d.kept, k.total);
        kept = tt;
      })
  where
    c : ℕ × ℕ
    c = carry 1000 t.millisecond n

    k : Carries 1000 t.millisecond n c
    k = carry_1000 t.millisecond n v.clock.millisecond_in (omega arith)

    d : Lands SameMillisecond t (instant t + c.0 * 1000) (carry_into add_seconds c.0 t)
    d =
        carry_into-Lands SameMillisecond add_seconds t c.0 _ v refl (λ e. omega arith)
          (λ p. add_seconds-Lands t c.0 v (omega (arith, k.no_more)))
