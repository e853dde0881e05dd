-- ===== src/DateTime/Order.antt =====
-- `compare` and the six comparison operators agree with the order of the milliseconds that two dates
-- and times stand for.
use mathlib.Core.Path.{ap₂}
use native.Mathlib.Decide.{dec_lt}
use operation_front_line.Common.{
  ℕ, zero, suc, ◌+◌, ◌*◌, ◌≤◌, ◌<◌, ◌≡◌, ap, sym, ◌∙◌, inl, inr, not, ltb, leb, ◌==◌, compare_field,
  order, field-lt, field-eq, field-gt, add_both, two_fields, clock_of, clock_fields, ℤ, pos, arith,
}
use operation_front_line.DateTime.{
  DateTime, compare, equal, not_equal, less, less_equal, greater, greater_equal,
}
use operation_front_line.DateTime.Calendar.{
  IsValid, IsDate, days_before_month, days_before_month_mono, days_before_year,
  days_before_year-suc, day_of_year_range, day_number, ordinal,
}
use operation_front_line.DateTime.Shift.Carry.{instant}

pub days_before_year_mono : (y z : ℕ) → 1 ≤ y → y ≤ z → days_before_year y ≤ days_before_year z
days_before_year_mono y zero hy h = absurd (omega arith)
days_before_year_mono y (suc z) hy h = elim (dec_lt z y) [
  | yes p ↦ omega (arith, ap days_before_year (eq y z h p))
  | no p ↦
      omega
        (arith, days_before_year_mono y z hy (omega arith), days_before_year-suc z (omega arith))
]
  where
    eq : (y z : ℕ) → y ≤ suc z → z < y → y ≡ suc z
    eq y z h p = omega arith

abbrev clock : DateTime → ℕ
clock t = clock_of t.hour t.minute t.second t.millisecond

-- An earlier date, by year, then month, then day, has the smaller day number.
module _ (y m d y' m' d' : ℕ) (h : IsDate y m d) (h' : IsDate y' m' d') where
  earlier_year : y < y' → day_number y m d < day_number y' m' d'
  earlier_year lt = omega (
    arith,
    day_of_year_range y m d h,
    day_of_year_range y' m' d' h',
    days_before_year-suc y h.year_pos,
    days_before_year_mono (suc y) y' (omega arith) lt,
  )

  earlier_month : y ≡ y' → m < m' → day_number y m d < day_number y' m' d'
  earlier_month e lt = omega (
    arith,
    ap days_before_year e,
    ap (λ k. days_before_month k m') e,
    h.day_in,
    h'.day_in,
    days_before_month_mono y (suc m) m' lt,
  )

  same_month :
      y ≡ y'
      → m ≡ m'
      → days_before_year y + days_before_month y m ≡ days_before_year y' + days_before_month y' m'
  same_month e e' = omega (
    arith,
    ap days_before_year e,
    ap (λ k. days_before_month k m') e,
    ap (days_before_month y) e',
  )

date_fields :
    (y m d y' m' d' : ℕ) (deeper : ℤ)
    → IsDate y m d
    → IsDate y' m' d'
    → compare_field y y' (compare_field m m' (compare_field d d' deeper))
      ≡ compare_field (day_number y m d) (day_number y' m' d') deeper
date_fields y m d y' m' d' deeper h h' = elim (order y y') [
  | inl lt ↦ field-lt _ lt ∙ sym (field-lt deeper (earlier_year y m d y' m' d' h h' lt))
  | inr (inr gt) ↦ field-gt _ gt ∙ sym (field-gt deeper (earlier_year y' m' d' y m d h' h gt))
  | inr (inl e) ↦ field-eq _ e ∙ elim (order m m') [
    | inl lt ↦ field-lt _ lt ∙ sym (field-lt deeper (earlier_month y m d y' m' d' h h' e lt))
    | inr (inr gt) ↦
        field-gt _ gt ∙ sym (field-gt deeper (earlier_month y' m' d' y m d h' h (sym e) gt))
    | inr (inl e') ↦ field-eq _ e' ∙ add_both _ _ d d' deeper (same_month y m d y' m' d' h h' e e')
  ]
]

-- `compare` answers -1, 0 or 1 as the first instant is smaller, equal or greater.
pub compare-instant :
    (t u : DateTime)
    → IsValid t
    → IsValid u
    → compare t u ≡ compare_field (instant t) (instant u) (pos 0)
unfolding compare
compare-instant t u v w =
    date_fields t.year t.month t.day u.year u.month u.day _ v.date w.date
    ∙ ap (compare_field (ordinal t) (ordinal u)) (
        clock_fields t.hour t.minute t.second t.millisecond u.hour u.minute u.second u.millisecond
          (pos 0) (v.clock.minute_in, v.clock.second_in, v.clock.millisecond_in)
          (w.clock.minute_in, w.clock.second_in, w.clock.millisecond_in))
    ∙ two_fields 86400000 (ordinal t) (ordinal u) (clock t) (clock u) (pos 0)
        (omega (arith, v.clock)) (omega (arith, w.clock))
    ∙ ap₂ (λ a b. compare_field a b (pos 0)) {x = ordinal t * 86400000 + clock t} {y = instant t}
        {u = ordinal u * 86400000 + clock u} {v = instant u} (omega arith) (omega arith)

-- On valid dates and times, the six operators are the six comparisons of the milliseconds that
-- they stand for.
pub operators-instant :
    (t u : DateTime)
    → IsValid t
    → IsValid u
    → (equal t u ≡ (instant t == instant u))
      × (not_equal t u ≡ not (instant t == instant u))
      × (less t u ≡ ltb (instant t) (instant u))
      × (less_equal t u ≡ leb (instant t) (instant u))
      × (greater t u ≡ ltb (instant u) (instant t))
      × (greater_equal t u ≡ leb (instant u) (instant t))
unfolding equal not_equal less less_equal greater greater_equal
operators-instant t u v w = rw (compare-instant t u v w) (elim (order (instant t) (instant u)) [
  | inl lt ↦ ground arith
  | inr (inl e) ↦ ground arith
  | inr (inr gt) ↦ ground arith
])

-- Dates with one day number are equal.
day_number_inj :
    (y m d y' m' d' : ℕ)
    → IsDate y m d
    → IsDate y' m' d'
    → day_number y m d ≡ day_number y' m' d'
    → (y ≡ y') × (m ≡ m') × (d ≡ d')
day_number_inj y m d y' m' d' h h' e = elim (order y y') [
  | inl lt ↦ absurd (omega (arith, earlier_year y m d y' m' d' h h' lt))
  | inr (inr gt) ↦ absurd (omega (arith, earlier_year y' m' d' y m d h' h gt))
  | inr (inl same) ↦ elim (order m m') [
    | inl lt ↦ absurd (omega (arith, earlier_month y m d y' m' d' h h' same lt))
    | inr (inr gt) ↦ absurd (omega (arith, earlier_month y' m' d' y m d h' h (sym same) gt))
    | inr (inl same') ↦ (same, same', omega (arith, same_month y m d y' m' d' h h' same same'))
  ]
]

-- Valid dates and times that stand for one instant are equal.
pub instant_inj : (t u : DateTime) → IsValid t → IsValid u → instant t ≡ instant u → t ≡ u
instant_inj t u v w e =
    let days : ordinal t ≡ ordinal u = omega (arith, v.clock, w.clock) in
    let (y, m, d) = day_number_inj t.year t.month t.day u.year u.month u.day v.date w.date days in
    let h : t.hour ≡ u.hour = omega (arith, v.clock, w.clock) in
    let mi : t.minute ≡ u.minute = omega (arith, v.clock, w.clock) in
    let s : t.second ≡ u.second = omega (arith, v.clock, w.clock) in
    let ms : t.millisecond ≡ u.millisecond = omega (arith, v.clock, w.clock) in
    λ i. record {
      year = y i;
      month = m i;
      day = d i;
      hour = h i;
      minute = mi i;
      second = s i;
      millisecond = ms i;
    }

-- A day that is not later lies in a year that is not later.
pub year_mono : (t u : DateTime) → IsValid t → IsValid u → ordinal u ≤ ordinal t → u.year ≤ t.year
year_mono t u v w h = elim (dec_lt t.year u.year) [
  | yes p ↦
      absurd (omega (arith, earlier_year t.year t.month t.day u.year u.month u.day v.date w.date p))
  | no p ↦ omega arith
]

pub earlier_year-instant :
    (t u : DateTime) → IsValid t → IsValid u → t.year < u.year → instant t < instant u
earlier_year-instant t u v w lt = omega (
  arith,
  earlier_year t.year t.month t.day u.year u.month u.day v.date w.date lt,
  v.clock,
  w.clock,
)
