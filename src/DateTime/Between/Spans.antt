-- ===== src/DateTime/Between/Spans.antt =====
-- `add` of a `DateTimeDuration` to a `DateTime`, and `subtract` of it.
use operation_front_line.Common.{
  ℕ, ◌+◌, ◌-◌, ◌≤◌, ◌<◌, ◌≡◌, refl, ap, ◌∙◌, true, false, not, u32_mod, arith,
}
use operation_front_line.DateTime.{DateTime, ok, ◌>>=◌}
use operation_front_line.DateTime.Calendar.{IsValid}
use operation_front_line.DateTime.Order.{instant_inj}
use operation_front_line.DateTime.Shift.Carry.{instant, Lands, Anything}
use operation_front_line.DateTime.Shift.Add.{Fits}
use operation_front_line.DateTime.Shift.Total.{add-Lands, subtract-Lands}
use operation_front_line.DateTime.Between.{blank, add_duration, subtract_duration}
use operation_front_line.DateTimeDuration.{DateTimeDuration, set_is_negative}
use operation_front_line.DateTimeDuration.Normal.{IsNormal, total_milliseconds, copy_lem}

abbrev pub parts : DateTimeDuration → ℕ
parts dur = dur.days + dur.hours + dur.minutes + dur.seconds + dur.milliseconds

-- A duration that is not negative is added by going its length on.
pub add_duration_on :
    (t : DateTime) (dur : DateTimeDuration)
    → IsValid t
    → dur.is_negative ≡ false
    → Fits t (parts dur)
    → Lands Anything t (instant t + total_milliseconds dur) (add_duration t dur)
unfolding add_duration
add_duration_on t dur v sign fits =
    rw sign (add-Lands t dur.days dur.hours dur.minutes dur.seconds dur.milliseconds v fits)

-- A negative one is added by going its length back.
pub add_duration_back :
    (t : DateTime) (dur : DateTimeDuration)
    → IsValid t
    → dur.is_negative ≡ true
    → parts dur < u32_mod
    → 86400000 + total_milliseconds dur ≤ instant t
    → Lands Anything t (instant t - total_milliseconds dur) (add_duration t dur)
unfolding add_duration
add_duration_back t dur v sign word enough =
    rw sign
      (subtract-Lands t dur.days dur.hours dur.minutes dur.seconds dur.milliseconds v word enough)

subtract_duration_lem :
    (t : DateTime) (dur : DateTimeDuration)
    → IsNormal dur
    → dur.days < u32_mod
    → subtract_duration t dur ≡ add_duration t (record dur { is_negative = not dur.is_negative })
unfolding subtract_duration set_is_negative
subtract_duration_lem t dur n word = rw (copy_lem blank dur n word)

-- On a valid date and time, adding a normal duration that is not negative and then subtracting it
-- answers the date and time that it was added to, where the day number and the fields of the
-- duration sum up to less than 2 ^ 32 - 366.
pub subtract_duration-add_duration :
    (t : DateTime) (dur : DateTimeDuration)
    → IsValid t
    → IsNormal dur
    → dur.is_negative ≡ false
    → Fits t (parts dur)
    → (add_duration t dur >>= λ u. subtract_duration u dur) ≡ ok t
subtract_duration-add_duration t dur v n sign fits =
    ap (λ r. r >>= λ u. subtract_duration u dur) r.returns
    ∙ subtract_duration_lem r.date dur n (omega arith)
    ∙ ap (λ b. add_duration r.date (record dur { is_negative = not b })) sign
    ∙ back.returns
    ∙ ap ok (instant_inj back.date t back.valid v (omega (arith, back.instant_is, r.instant_is)))
  where
    r : Lands Anything t (instant t + total_milliseconds dur) (add_duration t dur)
    r = add_duration_on t dur v sign fits

    enough : 86400000 + total_milliseconds dur ≤ instant r.date
    enough = omega (arith, r.instant_is, v.date.day_in)

    back :
        Lands Anything r.date
          (instant r.date - total_milliseconds dur)
          (add_duration r.date (record dur { is_negative = true }))
    back =
        add_duration_back r.date (record dur { is_negative = true }) r.valid refl (omega arith)
          enough
