-- ===== src/Common/Compare.antt =====
-- The nested field-by-field tests of `DateTime::compare` and `DateTimeDuration::compare`.
use Prim.Native.Nat.{ℕ, zero, suc, ◌+◌, ◌*◌, ◌<◌}
use mathlib.Core.Path.{◌≡◌, sym, ap, ◌∙◌}
use mathlib.Core.Logic.{◌⊎◌, inl, inr}
use mathlib.Core.Bool.{Bool, true, false}
use native.Mathlib.Omega.{arith}
use operation_front_line.Common.Tests.{ltb, ◌==◌, if◌then◌else◌}
use operation_front_line.Common.Int.{ℤ, pos, negsuc}

-- One level: on equal fields the tests go on, else the answer is -1 or 1.
abbrev pub compare_field : ℕ → ℕ → ℤ → ℤ
compare_field a b deeper = if a == b then deeper else if ltb a b then negsuc 0 else pos 1

-- The tests on the `int` that comes out, against 0.
abbrev pub eq_zero : ℤ → Bool
eq_zero (pos zero) = true
eq_zero (pos (suc n)) = false
eq_zero (negsuc n) = false

abbrev pub lt_zero : ℤ → Bool
lt_zero (pos n) = false
lt_zero (negsuc n) = true

pub order : (a b : ℕ) → (a < b) ⊎ ((a ≡ b) ⊎ (b < a))
order a b = omega arith

module _ {a b : ℕ} (deeper : ℤ) where
  pub field-lt : a < b → compare_field a b deeper ≡ negsuc 0
  field-lt h = ground arith

  pub field-eq : a ≡ b → compare_field a b deeper ≡ deeper
  field-eq h = ground arith

  pub field-gt : b < a → compare_field a b deeper ≡ pos 1
  field-gt h = ground arith

-- What stands before equal fields may be added to both.
pub add_both :
    (x x' d d' : ℕ) (deeper : ℤ)
    → x ≡ x'
    → compare_field d d' deeper ≡ compare_field (x + d) (x' + d') deeper
add_both x x' d d' deeper e = ground arith

radix-lt : (base a b x y : ℕ) → a < b → x < base → a * base + x < b * base + y
radix-lt base a b x y h k = grind arith

-- Two levels are one, where the second field lies below a base.
pub two_fields :
    (base a b x y : ℕ) (deeper : ℤ)
    → x < base
    → y < base
    → compare_field a b (compare_field x y deeper)
      ≡ compare_field (a * base + x) (b * base + y) deeper
two_fields base a b x y deeper h k = elim (order a b) [
  | inl lt ↦ field-lt _ lt ∙ sym (field-lt deeper (radix-lt base a b x y lt h))
  | inr (inl e) ↦ field-eq _ e ∙ add_both (a * base) (b * base) x y deeper (rw e)
  | inr (inr gt) ↦ field-gt _ gt ∙ sym (field-gt deeper (radix-lt base b a y x gt k))
]

-- A time of day in milliseconds.
abbrev pub clock_of : ℕ → ℕ → ℕ → ℕ → ℕ
clock_of h mi s ms = h * 3600000 + (mi * 60000 + (s * 1000 + ms))

-- The tests from the hours down compare the milliseconds.
pub clock_fields :
    (h mi s ms h' mi' s' ms' : ℕ) (deeper : ℤ)
    → (mi < 60) × (s < 60) × (ms < 1000)
    → (mi' < 60) × (s' < 60) × (ms' < 1000)
    → compare_field h h' (compare_field mi mi' (compare_field s s' (compare_field ms ms' deeper)))
      ≡ compare_field (clock_of h mi s ms) (clock_of h' mi' s' ms') deeper
clock_fields h mi s ms h' mi' s' ms' deeper v w =
    ap (λ r. compare_field h h' (compare_field mi mi' r))
      (two_fields 1000 s s' ms ms' deeper v.2 w.2)
    ∙ ap (compare_field h h') (
        two_fields 60000 mi mi' (s * 1000 + ms) (s' * 1000 + ms') deeper (omega arith)
          (omega arith))
    ∙ two_fields 3600000 h h' (mi * 60000 + (s * 1000 + ms)) (mi' * 60000 + (s' * 1000 + ms'))
        deeper (omega arith) (omega arith)
