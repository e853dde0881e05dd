-- ===== src/DateTimeDuration/Normal.antt =====
-- The setters of `DateTimeDuration` end, bring every field below its base and keep the total.
use operation_front_line.DateTimeDuration.Minutes.{
  HoursSet, set_hours-HoursSet, MinutesSet, set_minutes-MinutesSet,
}
use operation_front_line.DateTimeDuration.Milliseconds.{
  SecondsSet, set_seconds-SecondsSet, MillisecondsSet, set_milliseconds-MillisecondsSet,
}
use operation_front_line.Common.{
  ℕ, ◌+◌, ◌*◌, ◌<◌, ◌≡◌, refl, ap, ◌∙◌, Bool, u32_mod, arith, Outcome, done,
}
use operation_front_line.DateTimeDuration.{
  DateTimeDuration, set_days, set_is_negative, set_hours, set_minutes, set_seconds,
  set_milliseconds, set_date_time_duration, copy,
}

pub record IsNormal (d : DateTimeDuration) : Type 0 where
  pub hours_in : d.hours < 24
  pub minutes_in : d.minutes < 60
  pub seconds_in : d.seconds < 60
  pub milliseconds_in : d.milliseconds < 1000

-- The milliseconds of a duration, but for its sign.
abbrev pub total_milliseconds : DateTimeDuration → ℕ
total_milliseconds d =
    d.days * 86400000 + d.hours * 3600000 + d.minutes * 60000 + d.seconds * 1000 + d.milliseconds

-- `r` is a normal duration of that total and sign.
pub record Normalised (z : ℕ) (negative : Bool) (r : Outcome DateTimeDuration) : Type 0 where
  pub next : DateTimeDuration
  pub returns : r ≡ done next
  pub normal : IsNormal next
  pub total : total_milliseconds next ≡ z
  pub sign : next.is_negative ≡ negative

-- `setDateTimeDuration` ends, whatever the object held, with every field below its base, the
-- total of the arguments in milliseconds and the sign that it was given, where the days of the
-- total fit 32 bits.
pub set_date_time_duration-Normalised :
    (d : DateTimeDuration) (days hours minutes seconds milliseconds : ℕ) (negative : Bool)
    → days * 86400000 + hours * 3600000 + minutes * 60000 + seconds * 1000 + milliseconds
      < 86400000 * u32_mod
    → Normalised
        (days * 86400000 + hours * 3600000 + minutes * 60000 + seconds * 1000 + milliseconds)
        negative
        (set_date_time_duration d days hours minutes seconds milliseconds negative)
unfolding set_date_time_duration set_days set_is_negative
set_date_time_duration-Normalised d days hours minutes seconds milliseconds negative fits =
    let start : DateTimeDuration = record d { days = days; is_negative = negative } in
    let h : HoursSet start (days * 24 + hours) (set_hours start hours) =
      set_hours-HoursSet start hours (omega arith) in
    let m : MinutesSet h.next ((h.next.days * 24 + h.next.hours) * 60 + minutes)
        (set_minutes h.next minutes) =
      set_minutes-MinutesSet h.next minutes h.hours_in (omega (arith, h.total)) in
    let s : SecondsSet m.next
        (((m.next.days * 24 + m.next.hours) * 60 + m.next.minutes) * 60 + seconds)
        (set_seconds m.next seconds) =
      set_seconds-SecondsSet m.next seconds m.hours_in m.minutes_in
        (omega (arith, h.total, m.total)) in
    let l : MillisecondsSet s.next
        ((((s.next.days * 24 + s.next.hours) * 60 + s.next.minutes) * 60 + s.next.seconds) * 1000
          + milliseconds)
        (set_milliseconds s.next milliseconds) =
      set_milliseconds-MillisecondsSet s.next milliseconds s.hours_in s.minutes_in s.seconds_in
        (omega (arith, h.total, m.total, s.total)) in
    rw (h.returns, m.returns, s.returns, l.returns)
      (record {
        next = l.next;
        returns = refl;
        normal = record {
          hours_in = l.hours_in;
          minutes_in = l.minutes_in;
          seconds_in = l.seconds_in;
          milliseconds_in = l.milliseconds_in;
        };
        total = omega (arith, h.total, m.total, s.total, l.total);
        sign = l.sign ∙ s.sign ∙ m.sign ∙ h.sign;
      })

-- Two normal durations of one total and one sign are equal.
pub total_milliseconds_inj :
    (d e : DateTimeDuration)
    → IsNormal d
    → IsNormal e
    → total_milliseconds d ≡ total_milliseconds e
    → d.is_negative ≡ e.is_negative
    → d ≡ e
total_milliseconds_inj d e n m t s =
    let days : d.days ≡ e.days = omega (arith, n, m, t) in
    let hours : d.hours ≡ e.hours = omega (arith, n, m, t) in
    let minutes : d.minutes ≡ e.minutes = omega (arith, n, m, t) in
    let seconds : d.seconds ≡ e.seconds = omega (arith, n, m, t) in
    let milliseconds : d.milliseconds ≡ e.milliseconds = omega (arith, n, m, t) in
    λ i. record {
      days = days i;
      hours = hours i;
      minutes = minutes i;
      seconds = seconds i;
      milliseconds = milliseconds i;
      is_negative = s i;
    }

-- A normal duration is copied as it is.
pub copy_lem : (d e : DateTimeDuration) → IsNormal e → e.days < u32_mod → copy d e ≡ done e
unfolding copy
copy_lem d e n word =
    let c : Normalised (total_milliseconds e) e.is_negative
        (set_date_time_duration d e.days e.hours e.minutes e.seconds e.milliseconds e.is_negative) =
      set_date_time_duration-Normalised d e.days e.hours e.minutes e.seconds e.milliseconds
        e.is_negative (omega (arith, n)) in
    c.returns ∙ ap done (total_milliseconds_inj c.next e c.normal n c.total c.sign)
