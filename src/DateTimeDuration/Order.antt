-- ===== src/DateTimeDuration/Order.antt =====
-- The comparisons of `DateTimeDuration` order normal durations by their length and do not read the
-- sign.
use mathlib.Core.Path.{ap₂}
use operation_front_line.Common.{
  ℕ, ◌+◌, ◌*◌, ◌≡◌, ap, ◌∙◌, inl, inr, not, ltb, leb, ◌==◌, compare_field, order, two_fields,
  clock_of, clock_fields, pos, arith,
}
use operation_front_line.DateTimeDuration.{
  DateTimeDuration, is_zero, compare, equal, not_equal, less, less_equal, greater, greater_equal,
}
use operation_front_line.DateTimeDuration.Normal.{IsNormal, total_milliseconds}

-- The special case for two zero durations adds nothing to the nested tests.
zero_case :
    (d e : DateTimeDuration)
    → compare d e
      ≡ compare_field d.days e.days (
          compare_field d.hours e.hours (
            compare_field d.minutes e.minutes (
              compare_field d.seconds e.seconds
                (compare_field d.milliseconds e.milliseconds (pos 0)))))
unfolding compare is_zero
zero_case d e = ground arith

abbrev clock : DateTimeDuration → ℕ
clock d = clock_of d.hours d.minutes d.seconds d.milliseconds

-- `compare` answers -1, 0 or 1 as the first duration is shorter, as long or longer.
pub compare-total_milliseconds :
    (d e : DateTimeDuration)
    → IsNormal d
    → IsNormal e
    → compare d e ≡ compare_field (total_milliseconds d) (total_milliseconds e) (pos 0)
compare-total_milliseconds d e n m =
    zero_case d e
    ∙ ap (compare_field d.days e.days) (
        clock_fields d.hours d.minutes d.seconds d.milliseconds e.hours e.minutes e.seconds
          e.milliseconds (pos 0) (n.minutes_in, n.seconds_in, n.milliseconds_in)
          (m.minutes_in, m.seconds_in, m.milliseconds_in))
    ∙ two_fields 86400000 d.days e.days (clock d) (clock e) (pos 0) (omega arith) (omega arith)
    ∙ ap₂ (λ a b. compare_field a b (pos 0)) {x = d.days * 86400000 + clock d}
        {y = total_milliseconds d} {u = e.days * 86400000 + clock e} {v = total_milliseconds e}
        (omega arith) (omega arith)

-- On normal durations, the six operators are the six comparisons of the lengths; the sign is not
-- read.
pub operators-total_milliseconds :
    (d e : DateTimeDuration)
    → IsNormal d
    → IsNormal e
    → (equal d e ≡ (total_milliseconds d == total_milliseconds e))
      × (not_equal d e ≡ not (total_milliseconds d == total_milliseconds e))
      × (less d e ≡ ltb (total_milliseconds d) (total_milliseconds e))
      × (less_equal d e ≡ leb (total_milliseconds d) (total_milliseconds e))
      × (greater d e ≡ ltb (total_milliseconds e) (total_milliseconds d))
      × (greater_equal d e ≡ leb (total_milliseconds e) (total_milliseconds d))
unfolding equal not_equal less less_equal greater greater_equal
operators-total_milliseconds d e n m =
    rw (compare-total_milliseconds d e n m)
      (elim (order (total_milliseconds d) (total_milliseconds e)) [
        | inl lt ↦ ground arith
        | inr (inl same) ↦ ground arith
        | inr (inr gt) ↦ ground arith
      ])
