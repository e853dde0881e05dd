-- ===== src/Arma/Numbers/Total.antt =====
-- The parsers of numbers answer a number or throw.
use operation_front_line.Common.{ℕ, ◌≢◌, Bool, true, false, none, some, List, arith}
use operation_front_line.Arma.{Parse, throws, exhausted}
use operation_front_line.Arma.Numbers.{
  unsigned_of, signed_of, number_of, read_number, read_sign, skip_space, stoull, stoll,
}

number_of-ends :
    {A : Type 0} (of : Bool → ℕ → Parse A) (p : Bool × List ℕ)
    → ((minus : Bool) (n : ℕ) → of minus n ≢ exhausted)
    → number_of of p ≢ exhausted
number_of-ends of (minus, t) h =
    elim (read_number 10 t) as (λ x. (elim x [ none ↦ throws | some n ↦ of minus n ]) ≢ exhausted) [
      | none ↦ cc
      | some n ↦ h minus n
    ]

unsigned_of-ends : (minus : Bool) (n : ℕ) → unsigned_of minus n ≢ exhausted
unsigned_of-ends minus n = ground arith

signed_of-ends : (minus : Bool) (n : ℕ) → signed_of minus n ≢ exhausted
signed_of-ends true n = ground arith
signed_of-ends false n = ground arith

pub stoull-ends : (s : List ℕ) → stoull s ≢ exhausted
unfolding stoull
stoull-ends s = number_of-ends unsigned_of (read_sign (skip_space s)) unsigned_of-ends

pub stoll-ends : (s : List ℕ) → stoll s ≢ exhausted
unfolding stoll
stoll-ends s = number_of-ends signed_of (read_sign (skip_space s)) signed_of-ends
