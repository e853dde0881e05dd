-- ===== src/Arma/Numbers/Range.antt =====
-- The parsers of numbers answer numbers of their types.
use operation_front_line.Common.{ℕ, zero, suc, ◌^◌, ◌<◌, Bool, true, false, none, some, List, arith}
use operation_front_line.Arma.{Parse, ok, terminates, throws, undefined, exhausted, ◌>>=◌}
use operation_front_line.Arma.Numbers.{
  unsigned_of, signed_of, hex_of, number_of, hex_number, read_number, skip_prefix, read_sign,
  skip_space, stoull, stoll, read_hex,
}
use operation_front_line.Arma.Numbers.RoundTrip.{FitsSigned}

-- What holds of a call's value, if it answers one.
abbrev pub Answers : {A : Type 0} → (A → Type 0) → Parse A → Type 0
Answers P (ok a) = P a
Answers P (terminates e) = Unit {0}
Answers P throws = Unit {0}
Answers P undefined = Unit {0}
Answers P exhausted = Unit {0}

pub then-Answers :
    {A B : Type 0} (P : A → Type 0) (Q : B → Type 0) (f : A → B) (r : Parse A)
    → Answers P r
    → ((a : A) → P a → Q (f a))
    → Answers Q (r >>= (λ a. ok (f a)))
then-Answers P Q f (ok a) h k = k a h
then-Answers P Q f (terminates e) h k = tt
then-Answers P Q f throws h k = tt
then-Answers P Q f undefined h k = tt
then-Answers P Q f exhausted h k = tt

number_of-Answers :
    {A : Type 0} (P : A → Type 0) (of : Bool → ℕ → Parse A) (p : Bool × List ℕ)
    → ((minus : Bool) (n : ℕ) → Answers P (of minus n))
    → Answers P (number_of of p)
number_of-Answers P of (minus, t) h =
    elim (read_number 10 t) as (λ x. Answers P (elim x [ none ↦ throws | some n ↦ of minus n ])) [
      | none ↦ tt
      | some n ↦ h minus n
    ]

unsigned_of-Answers : (minus : Bool) (n : ℕ) → Answers (λ k. k < 2 ^ 64) (unsigned_of minus n)
unsigned_of-Answers true n = ground arith
unsigned_of-Answers false n = ground arith

signed_of-Answers : (minus : Bool) (n : ℕ) → Answers FitsSigned (signed_of minus n)
signed_of-Answers true zero = ground arith
signed_of-Answers true (suc n) = ground arith
signed_of-Answers false n = ground arith

pub stoull-Answers : (s : List ℕ) → Answers (λ k. k < 2 ^ 64) (stoull s)
unfolding stoull
stoull-Answers s =
    number_of-Answers (λ k. k < 2 ^ 64) unsigned_of (read_sign (skip_space s)) unsigned_of-Answers

pub stoll-Answers : (s : List ℕ) → Answers FitsSigned (stoll s)
unfolding stoll
stoll-Answers s =
    number_of-Answers FitsSigned signed_of (read_sign (skip_space s)) signed_of-Answers

hex_of-lt : (minus : Bool) (n : ℕ) → hex_of minus n < 2 ^ 64
hex_of-lt true n = ground arith
hex_of-lt false n = ground arith

hex_number-lt : (p : Bool × List ℕ) → hex_number p < 2 ^ 64
hex_number-lt (minus, t) =
    elim (read_number 16 (skip_prefix t))
      as (λ x. (elim x [ none ↦ 0 | some n ↦ hex_of minus n ]) < 2 ^ 64) [
        | none ↦ omega arith
        | some n ↦ hex_of-lt minus n
      ]

pub read_hex-lt : (s : List ℕ) → read_hex s < 2 ^ 64
unfolding read_hex
read_hex-lt s = hex_number-lt (read_sign (skip_space s))
