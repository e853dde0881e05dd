-- ===== src/DateTime/Shift/Walk.antt =====
-- The loops behind `addDays` and `subtractDays`, and the setters that store what they reach: each
-- ends within its fuel and keeps count of the days.
use native.Mathlib.Decide.{dec_lt}
use mathlib.Core.Path.{subst}
use operation_front_line.Common.{
  ℕ, zero, suc, ◌+◌, ◌-◌, ◌≤◌, ◌<◌, ◌≡◌, refl, ap, lt→ltb, ge→ltb, sub32, u32, u32_mod, arith,
}
use operation_front_line.DateTime.{Result, ok, days_in_year}
use operation_front_line.DateTime.Shift.{walk_back, walk_forward}
use operation_front_line.DateTime.Store.{days_in_year_range}
use operation_front_line.DateTime.Calendar.{
  days_before_year, days_before_year-suc, days_before_year-one,
}

-- `r` is the day `found.1` of the year `found.0`, and that is the day `n` from year 1 on.
pub record Reaches (n : ℕ) (r : Result (ℕ × ℕ)) : Type 0 where
  pub found : ℕ × ℕ
  pub returns : r ≡ ok found
  pub year_pos : 1 ≤ found.0
  pub day_in : (1 ≤ found.1) × (found.1 ≤ days_in_year found.0)
  pub counted : days_before_year found.0 + found.1 ≡ n
  pub word : found.0 < u32_mod

pub walk_forward-Reaches :
    (fuel year day : ℕ)
    → 1 ≤ year
    → 1 ≤ day
    → day < fuel
    → year + day < u32_mod
    → Reaches (days_before_year year + day) (walk_forward fuel year (days_in_year year) day)
unfolding walk_forward
walk_forward-Reaches zero year day hy hd hf hw = absurd (omega arith)
walk_forward-Reaches (suc fuel) year day hy hd hf hw = elim (dec_lt (days_in_year year) day) [
  | yes p ↦
      let next : u32 (year + 1) ≡ suc year = omega (arith, days_in_year_range year) in
      let left : sub32 day (days_in_year year) ≡ day - days_in_year year =
        omega (arith, days_in_year_range year) in
      let count : days_before_year (suc year) + (day - days_in_year year)
          ≡ days_before_year year + day =
        omega (arith, days_before_year-suc year hy) in
      rw (lt→ltb p, next, left)
        (subst
          (λ n.
            Reaches n
              (walk_forward fuel (suc year) (days_in_year (suc year)) (day - days_in_year year)))
          count
          (walk_forward-Reaches fuel (suc year) (day - days_in_year year) (omega arith)
            (omega arith) (omega (arith, days_in_year_range year))
            (omega (arith, days_in_year_range year))))
  | no p ↦ rw (ge→ltb p) (record {
    found = (year, day);
    returns = refl;
    year_pos = hy;
    day_in = (hd, omega arith);
    counted = refl;
    word = omega arith;
  })
]

pub days_before_year-pred :
    (y : ℕ) → 2 ≤ y → days_before_year y ≡ days_before_year (y - 1) + days_in_year (y - 1)
days_before_year-pred zero h = absurd (omega arith)
days_before_year-pred (suc y) h =
    let e : suc y - 1 ≡ y = omega arith in rw e (days_before_year-suc y (omega arith))

not_first :
    (year day days : ℕ) → 1 ≤ year → days < days_before_year year + day → day ≤ days → 2 ≤ year
not_first zero day days hy hn h = absurd (omega arith)
not_first (suc zero) day days hy hn h = absurd (omega (arith, days_before_year-one))
not_first (suc (suc y)) day days hy hn h = omega arith

pub walk_back_done : (fuel year day : ℕ) → 0 < fuel → walk_back fuel 0 year day ≡ ok (year, day)
unfolding walk_back
walk_back_done zero year day h = absurd (omega arith)
walk_back_done (suc fuel) year day h = refl

-- One round that takes off the rest of the year.
pub walk_back-suc :
    (fuel days year day : ℕ)
    → 1 ≤ day
    → day ≤ days
    → days < u32_mod
    → 1 ≤ year
    → year < u32_mod
    → walk_back (suc fuel) days year day
      ≡ walk_back fuel (days - day) (year - 1) (days_in_year (year - 1))
unfolding walk_back
walk_back-suc fuel days year day hd h hw hy hz =
    let before : sub32 year 1 ≡ year - 1 = omega arith in
    let left : sub32 days day ≡ days - day = omega arith in
    rw (
      lt→ltb {a = 0} {b = days} (omega arith),
      ge→ltb {a = days} {b = day} (omega arith),
      before,
      left,
    )

-- The last round takes off what is left of `days` within the year.
pub walk_back_last :
    (fuel days year day : ℕ)
    → days < suc fuel
    → days < day
    → day ≤ days_in_year year
    → walk_back (suc fuel) days year day ≡ ok (year, day - days)
unfolding walk_back
walk_back_last fuel days year day hf h hl = elim (dec_lt 0 days) [
  | yes p ↦
      let left : sub32 day days ≡ day - days = omega (arith, days_in_year_range year) in
      rw (lt→ltb p, lt→ltb h, walk_back_done fuel year (sub32 day days) (omega arith), left)
  | no p ↦ rw (ge→ltb p) (ap (λ n. ok (year, n)) (omega arith))
]

-- Going back by fewer days than have been counted ends on the day that many before.
pub walk_back-Reaches :
    (fuel days year day : ℕ)
    → 1 ≤ year
    → year < u32_mod
    → 1 ≤ day
    → day ≤ days_in_year year
    → days < fuel
    → days < days_before_year year + day
    → days < u32_mod
    → Reaches (days_before_year year + day - days) (walk_back fuel days year day)
walk_back-Reaches zero days year day hy hw hd hl hf hn ho = absurd (omega arith)
walk_back-Reaches (suc fuel) days year day hy hw hd hl hf hn ho = elim (dec_lt days day) [
  | yes p ↦ rw (walk_back_last fuel days year day hf p hl) (record {
    found = (year, day - days);
    returns = refl;
    year_pos = hy;
    day_in = (omega arith, omega arith);
    counted = omega arith;
    word = hw;
  })
  | no p ↦
      let later = not_first year day days hy hn (omega arith) in
      let step = days_before_year-pred year later in
      rw (walk_back-suc fuel days year day hd (omega arith) ho hy hw) (
        subst (λ n. Reaches n (walk_back fuel (days - day) (year - 1) (days_in_year (year - 1))))
          (omega (arith, step))
          (walk_back-Reaches fuel (days - day) (year - 1) (days_in_year (year - 1)) (omega arith)
            (omega arith) (omega (arith, days_in_year_range (year - 1))) (omega arith) (omega arith)
            (omega (arith, step)) (omega arith)))
]
