-- ===== src/DateTime/Shift/Total.antt =====
-- `add` and `subtract` of days, hours, minutes, seconds and milliseconds together.
use operation_front_line.Common.{ℕ, ◌+◌, ◌-◌, ◌*◌, ◌≤◌, ◌<◌, ◌≡◌, refl, u32_mod, arith}
use operation_front_line.DateTime.{DateTime}
use operation_front_line.DateTime.Shift.{
  add_days, add_hours, add_minutes, add_seconds, add_milliseconds, add, subtract_days,
  subtract_hours, subtract_minutes, subtract_seconds, subtract_milliseconds, subtract,
}
use operation_front_line.DateTime.Calendar.{IsValid}
use operation_front_line.DateTime.Store.{copy_lem, SameTime}
use operation_front_line.DateTime.Shift.Carry.{
  instant, Lands, SameMinute, SameSecond, SameMillisecond, Anything,
}
use operation_front_line.DateTime.Shift.Add.{
  Fits, add_days-Lands, add_hours-Lands, add_minutes-Lands, add_seconds-Lands,
  add_milliseconds-Lands,
}
use operation_front_line.DateTime.Shift.Subtract.{
  subtract_days-Lands, subtract_hours-Lands, subtract_minutes-Lands, subtract_seconds-Lands,
  subtract_milliseconds-Lands,
}

abbrev pub span : ℕ → ℕ → ℕ → ℕ → ℕ → ℕ
span d h mi s ms = d * 86400000 + h * 3600000 + mi * 60000 + s * 1000 + ms

-- After a shift of less than `n` days, what is left to add still fits.
Fits-next :
    (t u : DateTime) (x n left : ℕ)
    → IsValid t
    → instant u ≡ instant t + x
    → x ≤ n * 86400000
    → Fits t (left + n)
    → Fits u left
Fits-next t u x n left v e le fits = omega (arith, v.clock)

-- The sums that the five shifts make up, on numbers alone.
module _ (d h mi s ms i₀ i₁ i₂ i₃ i₄ i₅ : ℕ) where
  sum_added :
      i₁ ≡ i₀ + ms
      → i₂ ≡ i₁ + s * 1000
      → i₃ ≡ i₂ + mi * 60000
      → i₄ ≡ i₃ + h * 3600000
      → i₅ ≡ i₄ + d * 86400000
      → i₅ ≡ i₀ + span d h mi s ms
  sum_added a b c e f = omega arith

  sum_taken :
      i₁ ≡ i₀ - ms
      → i₂ ≡ i₁ - s * 1000
      → i₃ ≡ i₂ - mi * 60000
      → i₄ ≡ i₃ - h * 3600000
      → i₅ ≡ i₄ - d * 86400000
      → i₅ ≡ i₀ - span d h mi s ms
  sum_taken a b c e f = omega arith

-- What is left to take away after a shift back by `x`.
enough_left : (i j x left : ℕ) → j ≡ i - x → 86400000 + (x + left) ≤ i → (86400000 + left ≤ j)
enough_left i j x left e h = omega arith

module _ (t : DateTime) (d h mi s ms : ℕ) (v : IsValid t)
    (fits : Fits t (d + h + mi + s + ms)) where
  l₁ : Lands Anything t (instant t + ms) (add_milliseconds t ms)
  l₁ = add_milliseconds-Lands t ms v (omega arith)

  fits₁ : Fits l₁.date (d + h + mi + s)
  fits₁ = Fits-next t l₁.date ms ms (d + h + mi + s) v l₁.instant_is (omega arith) fits

  l₂ : Lands SameMillisecond l₁.date (instant l₁.date + s * 1000) (add_seconds l₁.date s)
  l₂ = add_seconds-Lands l₁.date s l₁.valid (omega (arith, fits₁))

  fits₂ : Fits l₂.date (d + h + mi)
  fits₂ =
      Fits-next l₁.date l₂.date (s * 1000) s (d + h + mi) l₁.valid l₂.instant_is (omega arith) fits₁

  l₃ : Lands SameSecond l₂.date (instant l₂.date + mi * 60000) (add_minutes l₂.date mi)
  l₃ = add_minutes-Lands l₂.date mi l₂.valid (omega (arith, fits₂))

  fits₃ : Fits l₃.date (d + h)
  fits₃ =
      Fits-next l₂.date l₃.date (mi * 60000) mi (d + h) l₂.valid l₃.instant_is (omega arith) fits₂

  l₄ : Lands SameMinute l₃.date (instant l₃.date + h * 3600000) (add_hours l₃.date h)
  l₄ = add_hours-Lands l₃.date h l₃.valid (omega (arith, fits₃))

  l₅ : Lands SameTime l₄.date (instant l₄.date + d * 86400000) (add_days l₄.date d)
  l₅ =
      add_days-Lands l₄.date d l₄.valid
        (Fits-next l₃.date l₄.date (h * 3600000) h d l₃.valid l₄.instant_is (omega arith) fits₃)

  -- On a valid date and time, `add` answers a valid one that lies the sum of its five arguments
  -- later in milliseconds, where the day number and the five arguments sum up to less than 2 ^ 32
  -- - 366.
  pub add-Lands : Lands Anything t (instant t + span d h mi s ms) (add t d h mi s ms)
  unfolding add
  add-Lands =
      rw
        (
          copy_lem t v,
          l₁.returns,
          copy_lem l₁.date l₁.valid,
          l₂.returns,
          copy_lem l₂.date l₂.valid,
          l₃.returns,
          copy_lem l₃.date l₃.valid,
          l₄.returns,
          copy_lem l₄.date l₄.valid,
          l₅.returns,
          copy_lem l₅.date l₅.valid,
        )
        (record {
          date = l₅.date;
          returns = refl;
          valid = l₅.valid;
          instant_is =
              sum_added d h mi s ms (instant t) (instant l₁.date) (instant l₂.date)
                (instant l₃.date) (instant l₄.date) (instant l₅.date) l₁.instant_is l₂.instant_is
                l₃.instant_is l₄.instant_is l₅.instant_is;
          kept = tt;
        })

module _ (t : DateTime) (d h mi s ms : ℕ) (v : IsValid t) (word : d + h + mi + s + ms < u32_mod)
    (enough : 86400000 + span d h mi s ms ≤ instant t) where
  m₁ : Lands Anything t (instant t - ms) (subtract_milliseconds t ms)
  m₁ = subtract_milliseconds-Lands t ms v (omega arith) (omega arith)

  left₁ : 86400000 + (s * 1000 + (mi * 60000 + (h * 3600000 + d * 86400000))) ≤ instant m₁.date
  left₁ = enough_left (instant t) (instant m₁.date) ms _ m₁.instant_is (omega arith)

  m₂ : Lands SameMillisecond m₁.date (instant m₁.date - s * 1000) (subtract_seconds m₁.date s)
  m₂ = subtract_seconds-Lands m₁.date s m₁.valid (omega arith) (omega (arith, left₁))

  left₂ : 86400000 + (mi * 60000 + (h * 3600000 + d * 86400000)) ≤ instant m₂.date
  left₂ = enough_left (instant m₁.date) (instant m₂.date) (s * 1000) _ m₂.instant_is left₁

  m₃ : Lands SameSecond m₂.date (instant m₂.date - mi * 60000) (subtract_minutes m₂.date mi)
  m₃ = subtract_minutes-Lands m₂.date mi m₂.valid (omega arith) (omega (arith, left₂))

  left₃ : 86400000 + (h * 3600000 + d * 86400000) ≤ instant m₃.date
  left₃ = enough_left (instant m₂.date) (instant m₃.date) (mi * 60000) _ m₃.instant_is left₂

  m₄ : Lands SameMinute m₃.date (instant m₃.date - h * 3600000) (subtract_hours m₃.date h)
  m₄ = subtract_hours-Lands m₃.date h m₃.valid (omega arith) (omega (arith, left₃))

  m₅ : Lands SameTime m₄.date (instant m₄.date - d * 86400000) (subtract_days m₄.date d)
  m₅ =
      subtract_days-Lands m₄.date d m₄.valid (omega arith)
        (enough_left (instant m₃.date) (instant m₄.date) (h * 3600000) _ m₄.instant_is left₃)

  -- On a valid date and time, `subtract` answers a valid one that lies the sum of its five
  -- arguments earlier in milliseconds, where the arguments sum up to less than 2 ^ 32 and do not
  -- lead before January 1st of year 1.
  pub subtract-Lands : Lands Anything t (instant t - span d h mi s ms) (subtract t d h mi s ms)
  unfolding subtract
  subtract-Lands =
      rw
        (
          copy_lem t v,
          m₁.returns,
          copy_lem m₁.date m₁.valid,
          m₂.returns,
          copy_lem m₂.date m₂.valid,
          m₃.returns,
          copy_lem m₃.date m₃.valid,
          m₄.returns,
          copy_lem m₄.date m₄.valid,
          m₅.returns,
          copy_lem m₅.date m₅.valid,
        )
        (record {
          date = m₅.date;
          returns = refl;
          valid = m₅.valid;
          instant_is =
              sum_taken d h mi s ms (instant t) (instant m₁.date) (instant m₂.date)
                (instant m₃.date) (instant m₄.date) (instant m₅.date) m₁.instant_is m₂.instant_is
                m₃.instant_is m₄.instant_is m₅.instant_is;
          kept = tt;
        })
