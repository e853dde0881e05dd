-- ===== src/DateTimeDuration/Minutes.antt =====
-- The setters of hours and minutes of `DateTimeDuration` end, carry and keep the total.
use native.Mathlib.Decide.{dec_le}
use operation_front_line.Common.{
  ℕ, zero, suc, ◌+◌, ◌-◌, ◌*◌, ◌<◌, ◌≡◌, refl, ◌∙◌, le→leb, gt→leb, u32, u32_mod, arith, Outcome,
  done,
}
use operation_front_line.DateTimeDuration.{
  DateTimeDuration, hours_loop, set_hours, minutes_loop, set_minutes,
}

-- `r` is `d` with the fields down to the hours in their ranges and their total `z`; the rest stays.
pub record HoursSet (d : DateTimeDuration) (z : ℕ) (r : Outcome DateTimeDuration) : Type 0 where
  pub next : DateTimeDuration
  pub returns : r ≡ done next
  pub hours_in : next.hours < 24
  pub total : next.days * 24 + next.hours ≡ z
  pub sign : next.is_negative ≡ d.is_negative
  pub rest :
      (next.minutes ≡ d.minutes) × (next.seconds ≡ d.seconds) × (next.milliseconds ≡ d.milliseconds)

hours_loop-HoursSet :
    (fuel : ℕ) (d : DateTimeDuration) (n : ℕ)
    → n < fuel
    → d.days * 24 + n < 24 * u32_mod
    → HoursSet d (d.days * 24 + n) (hours_loop fuel d n)
unfolding hours_loop
hours_loop-HoursSet zero d n h w = absurd (omega arith)
hours_loop-HoursSet (suc fuel) d n h w = elim (dec_le 24 n) [
  | yes p ↦
      let no_wrap : u32 (d.days + 1) ≡ d.days + 1 = omega arith in
      let r =
        hours_loop-HoursSet fuel (record d { days = d.days + 1 }) (n - 24) (omega arith)
          (omega arith) in
      rw (le→leb p, no_wrap)
        (record {
          next = r.next;
          returns = r.returns;
          hours_in = r.hours_in;
          total = omega (arith, r.total);
          sign = r.sign;
          rest = r.rest;
        })
  | no p ↦ rw (gt→leb p) (record {
    next = record d { hours = n };
    returns = refl;
    hours_in = omega arith;
    total = refl;
    sign = refl;
    rest = (refl, refl, refl);
  })
]

pub set_hours-HoursSet :
    (d : DateTimeDuration) (n : ℕ)
    → d.days * 24 + n < 24 * u32_mod
    → HoursSet d (d.days * 24 + n) (set_hours d n)
unfolding set_hours
set_hours-HoursSet d n = hours_loop-HoursSet (suc n) d n (omega arith)

-- `r` is `d` with the fields down to the minutes in their ranges and their total `z`; the rest stays.
pub record MinutesSet (d : DateTimeDuration) (z : ℕ) (r : Outcome DateTimeDuration) : Type 0 where
  pub next : DateTimeDuration
  pub returns : r ≡ done next
  pub hours_in : next.hours < 24
  pub minutes_in : next.minutes < 60
  pub total : (next.days * 24 + next.hours) * 60 + next.minutes ≡ z
  pub sign : next.is_negative ≡ d.is_negative
  pub rest : (next.seconds ≡ d.seconds) × (next.milliseconds ≡ d.milliseconds)

minutes_loop-MinutesSet :
    (fuel : ℕ) (d : DateTimeDuration) (n : ℕ)
    → n < fuel
    → d.hours < 24
    → (d.days * 24 + d.hours) * 60 + n < 1440 * u32_mod
    → MinutesSet d ((d.days * 24 + d.hours) * 60 + n) (minutes_loop fuel d n)
unfolding minutes_loop
minutes_loop-MinutesSet zero d n h h0 w = absurd (omega arith)
minutes_loop-MinutesSet (suc fuel) d n h h0 w = elim (dec_le 60 n) [
  | yes p ↦
      let no_wrap : u32 (d.hours + 1) ≡ d.hours + 1 = omega arith in
      let c : HoursSet d (d.days * 24 + (d.hours + 1)) (set_hours d (d.hours + 1)) =
        set_hours-HoursSet d (d.hours + 1) (omega arith) in
      let r : MinutesSet c.next ((c.next.days * 24 + c.next.hours) * 60 + (n - 60))
          (minutes_loop fuel c.next (n - 60)) =
        minutes_loop-MinutesSet fuel c.next (n - 60) (omega arith) c.hours_in
          (omega (arith, c.total)) in
      rw (le→leb p, no_wrap, c.returns)
        (record {
          next = r.next;
          returns = r.returns;
          hours_in = r.hours_in;
          minutes_in = r.minutes_in;
          total = omega (arith, r.total, c.total);
          sign = r.sign ∙ c.sign;
          rest = omega (arith, r.rest, c.rest);
        })
  | no p ↦ rw (gt→leb p) (record {
    next = record d { minutes = n };
    returns = refl;
    hours_in = h0;
    minutes_in = omega arith;
    total = refl;
    sign = refl;
    rest = (refl, refl);
  })
]

pub set_minutes-MinutesSet :
    (d : DateTimeDuration) (n : ℕ)
    → d.hours < 24
    → (d.days * 24 + d.hours) * 60 + n < 1440 * u32_mod
    → MinutesSet d ((d.days * 24 + d.hours) * 60 + n) (set_minutes d n)
unfolding set_minutes
set_minutes-MinutesSet d n = minutes_loop-MinutesSet (suc n) d n (omega arith)
