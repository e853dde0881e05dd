-- ===== src/DateTime/Between/CountLoops.antt =====
-- The loops of `timeBetween` end, and how many days each counts.
use native.Mathlib.Decide.{dec_lt}
use operation_front_line.Common.{
  ℕ, zero, suc, ◌+◌, ◌-◌, ◌≤◌, ◌<◌, ◌≡◌, refl, ap, ◌∙◌, lt→ltb, ge→ltb, ne→==, eq→==, sub32, u32,
  u32_mod, arith,
}
use operation_front_line.DateTime.{ok, days_in_year}
use operation_front_line.DateTime.Calendar.{days_before_year, days_before_year-suc}
use operation_front_line.DateTime.Order.{days_before_year_mono}
use operation_front_line.DateTime.Between.{years_loop, days_loop}
use operation_front_line.DateTimeDuration.Normal.{}

-- The loop over the days counts those between the two days of the year, or none.
pub days_loop_lem :
    (fuel stop current total : ℕ)
    → current < fuel
    → current < u32_mod
    → total + current < u32_mod
    → days_loop fuel stop current total ≡ ok (total + (current - stop))
unfolding days_loop
days_loop_lem zero stop current total h w k = absurd (omega arith)
days_loop_lem (suc fuel) stop current total h w k = elim (dec_lt stop current) [
  | yes p ↦
      let down : sub32 current 1 ≡ current - 1 = omega arith in
      let up : u32 (total + 1) ≡ total + 1 = omega arith in
      rw (lt→ltb p, down, up)
        (days_loop_lem fuel stop (current - 1) (total + 1) (omega arith) (omega arith) (omega arith)
          ∙ ap ok (omega arith))
  | no p ↦ rw (ge→ltb p) (ap ok (omega arith))
]

-- The loop over the years below the first one adds their lengths.
years_loop_below :
    (fuel year day stop current total : ℕ)
    → current < fuel
    → current < year
    → current < u32_mod
    → 1 ≤ stop
    → stop ≤ current
    → total + (days_before_year (suc current) - days_before_year (suc stop)) < u32_mod
    → years_loop fuel year day stop current total
      ≡ ok (total + (days_before_year (suc current) - days_before_year (suc stop)))
unfolding years_loop
years_loop_below zero year day stop current total h lt w hs le k = absurd (omega arith)
years_loop_below (suc fuel) year day stop current total h lt w hs le k =
    elim (dec_lt stop current) [
      | yes p ↦
          let down : sub32 current 1 ≡ current - 1 = omega arith in
          let last : days_before_year (suc current)
              ≡ days_before_year current + days_in_year current =
            days_before_year-suc current (omega arith) in
          let before : days_before_year (suc (current - 1)) ≡ days_before_year current =
            ap days_before_year (omega arith) in
          let mono : days_before_year (suc stop) ≤ days_before_year current =
            days_before_year_mono (suc stop) current (omega arith) p in
          let sum : u32 (total + days_in_year current) ≡ total + days_in_year current =
            omega (arith, last, mono) in
          rw (lt→ltb p, ne→== {a = current} {b = year} (omega arith), down, sum)
            (years_loop_below fuel year day stop (current - 1) (total + days_in_year current)
                (omega arith) (omega arith) (omega arith) hs (omega arith)
                (omega (arith, last, before, mono))
              ∙ ap ok (omega (arith, last, before, mono)))
      | no p ↦
          let same : days_before_year (suc current) ≡ days_before_year (suc stop) =
            ap days_before_year (omega arith) in
          rw (ge→ltb p) (ap ok (omega (arith, same)))
    ]

-- The loop from the year of `*this` on: its day of the year, and the years between.
pub years_loop_lem :
    (year day stop : ℕ)
    → 1 ≤ stop
    → stop < year
    → year < u32_mod
    → day + days_before_year year < u32_mod
    → years_loop (suc year) year day stop year 0
      ≡ ok (day + (days_before_year year - days_before_year (suc stop)))
unfolding years_loop
years_loop_lem year day stop hs lt w k =
    let down : sub32 year 1 ≡ year - 1 = omega arith in
    let first : u32 (0 + day) ≡ day = omega arith in
    let before : days_before_year (suc (year - 1)) ≡ days_before_year year =
      ap days_before_year (omega arith) in
    rw (lt→ltb lt, eq→== {a = year} {b = year} refl, down, first)
      (years_loop_below year year day stop (year - 1) day (omega arith) (omega arith) (omega arith)
          hs (omega arith) (omega (arith, before))
        ∙ ap ok (omega (arith, before)))

pub years_loop_none :
    (fuel year day stop current total : ℕ)
    → current ≤ stop
    → years_loop (suc fuel) year day stop current total ≡ ok total
unfolding years_loop
years_loop_none fuel year day stop current total h =
    rw (ge→ltb {a = stop} {b = current} (omega arith))
