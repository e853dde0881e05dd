-- ===== src/DateTimeDuration/Milliseconds.antt =====
-- The setters of seconds and milliseconds of `DateTimeDuration` end, carry and keep the total.
use native.Mathlib.Decide.{dec_le}
use operation_front_line.Common.{
  ℕ, zero, suc, ◌+◌, ◌-◌, ◌*◌, ◌<◌, ◌≡◌, refl, ◌∙◌, le→leb, gt→leb, u32, u32_mod, arith, Outcome,
  done,
}
use operation_front_line.DateTimeDuration.{
  DateTimeDuration, set_minutes, seconds_loop, set_seconds, milliseconds_loop, set_milliseconds,
}
use operation_front_line.DateTimeDuration.Minutes.{MinutesSet, set_minutes-MinutesSet}

-- `r` is `d` with the fields down to the seconds in their ranges and their total `z`; the rest stays.
pub record SecondsSet (d : DateTimeDuration) (z : ℕ) (r : Outcome DateTimeDuration) : Type 0 where
  pub next : DateTimeDuration
  pub returns : r ≡ done next
  pub hours_in : next.hours < 24
  pub minutes_in : next.minutes < 60
  pub seconds_in : next.seconds < 60
  pub total : ((next.days * 24 + next.hours) * 60 + next.minutes) * 60 + next.seconds ≡ z
  pub sign : next.is_negative ≡ d.is_negative
  pub rest : next.milliseconds ≡ d.milliseconds

seconds_loop-SecondsSet :
    (fuel : ℕ) (d : DateTimeDuration) (n : ℕ)
    → n < fuel
    → d.hours < 24
    → d.minutes < 60
    → ((d.days * 24 + d.hours) * 60 + d.minutes) * 60 + n < 86400 * u32_mod
    → SecondsSet d (((d.days * 24 + d.hours) * 60 + d.minutes) * 60 + n) (seconds_loop fuel d n)
unfolding seconds_loop
seconds_loop-SecondsSet zero d n h h0 h1 w = absurd (omega arith)
seconds_loop-SecondsSet (suc fuel) d n h h0 h1 w = elim (dec_le 60 n) [
  | yes p ↦
      let no_wrap : u32 (d.minutes + 1) ≡ d.minutes + 1 = omega arith in
      let c : MinutesSet d ((d.days * 24 + d.hours) * 60 + (d.minutes + 1))
          (set_minutes d (d.minutes + 1)) =
        set_minutes-MinutesSet d (d.minutes + 1) h0 (omega arith) in
      let r : SecondsSet c.next
          (((c.next.days * 24 + c.next.hours) * 60 + c.next.minutes) * 60 + (n - 60))
          (seconds_loop fuel c.next (n - 60)) =
        seconds_loop-SecondsSet fuel c.next (n - 60) (omega arith) c.hours_in c.minutes_in
          (omega (arith, c.total)) in
      rw (le→leb p, no_wrap, c.returns)
        (record {
          next = r.next;
          returns = r.returns;
          hours_in = r.hours_in;
          minutes_in = r.minutes_in;
          seconds_in = r.seconds_in;
          total = omega (arith, r.total, c.total);
          sign = r.sign ∙ c.sign;
          rest = omega (arith, r.rest, c.rest);
        })
  | no p ↦ rw (gt→leb p) (record {
    next = record d { seconds = n };
    returns = refl;
    hours_in = h0;
    minutes_in = h1;
    seconds_in = omega arith;
    total = refl;
    sign = refl;
    rest = refl;
  })
]

pub set_seconds-SecondsSet :
    (d : DateTimeDuration) (n : ℕ)
    → d.hours < 24
    → d.minutes < 60
    → ((d.days * 24 + d.hours) * 60 + d.minutes) * 60 + n < 86400 * u32_mod
    → SecondsSet d (((d.days * 24 + d.hours) * 60 + d.minutes) * 60 + n) (set_seconds d n)
unfolding set_seconds
set_seconds-SecondsSet d n = seconds_loop-SecondsSet (suc n) d n (omega arith)

-- `r` is `d` with the fields down to the milliseconds in their ranges and their total `z`; the rest stays.
pub record MillisecondsSet (d : DateTimeDuration) (z : ℕ) (r : Outcome DateTimeDuration)
    : Type 0 where
  pub next : DateTimeDuration
  pub returns : r ≡ done next
  pub hours_in : next.hours < 24
  pub minutes_in : next.minutes < 60
  pub seconds_in : next.seconds < 60
  pub milliseconds_in : next.milliseconds < 1000
  pub total :
      (((next.days * 24 + next.hours) * 60 + next.minutes) * 60 + next.seconds) * 1000
        + next.milliseconds
      ≡ z
  pub sign : next.is_negative ≡ d.is_negative

milliseconds_loop-MillisecondsSet :
    (fuel : ℕ) (d : DateTimeDuration) (n : ℕ)
    → n < fuel
    → d.hours < 24
    → d.minutes < 60
    → d.seconds < 60
    → (((d.days * 24 + d.hours) * 60 + d.minutes) * 60 + d.seconds) * 1000 + n < 86400000 * u32_mod
    → MillisecondsSet d
        ((((d.days * 24 + d.hours) * 60 + d.minutes) * 60 + d.seconds) * 1000 + n)
        (milliseconds_loop fuel d n)
unfolding milliseconds_loop
milliseconds_loop-MillisecondsSet zero d n h h0 h1 h2 w = absurd (omega arith)
milliseconds_loop-MillisecondsSet (suc fuel) d n h h0 h1 h2 w = elim (dec_le 1000 n) [
  | yes p ↦
      let no_wrap : u32 (d.seconds + 1) ≡ d.seconds + 1 = omega arith in
      let c : SecondsSet d (((d.days * 24 + d.hours) * 60 + d.minutes) * 60 + (d.seconds + 1))
          (set_seconds d (d.seconds + 1)) =
        set_seconds-SecondsSet d (d.seconds + 1) h0 h1 (omega arith) in
      let r : MillisecondsSet c.next
          ((((c.next.days * 24 + c.next.hours) * 60 + c.next.minutes) * 60 + c.next.seconds) * 1000
            + (n - 1000))
          (milliseconds_loop fuel c.next (n - 1000)) =
        milliseconds_loop-MillisecondsSet fuel c.next (n - 1000) (omega arith) c.hours_in
          c.minutes_in c.seconds_in (omega (arith, c.total)) in
      rw (le→leb p, no_wrap, c.returns)
        (record {
          next = r.next;
          returns = r.returns;
          hours_in = r.hours_in;
          minutes_in = r.minutes_in;
          seconds_in = r.seconds_in;
          milliseconds_in = r.milliseconds_in;
          total = omega (arith, r.total, c.total);
          sign = r.sign ∙ c.sign;
        })
  | no p ↦ rw (gt→leb p) (record {
    next = record d { milliseconds = n };
    returns = refl;
    hours_in = h0;
    minutes_in = h1;
    seconds_in = h2;
    milliseconds_in = omega arith;
    total = refl;
    sign = refl;
  })
]

pub set_milliseconds-MillisecondsSet :
    (d : DateTimeDuration) (n : ℕ)
    → d.hours < 24
    → d.minutes < 60
    → d.seconds < 60
    → (((d.days * 24 + d.hours) * 60 + d.minutes) * 60 + d.seconds) * 1000 + n < 86400000 * u32_mod
    → MillisecondsSet d
        ((((d.days * 24 + d.hours) * 60 + d.minutes) * 60 + d.seconds) * 1000 + n)
        (set_milliseconds d n)
unfolding set_milliseconds
set_milliseconds-MillisecondsSet d n = milliseconds_loop-MillisecondsSet (suc n) d n (omega arith)
