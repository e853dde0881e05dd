-- ===== src/DateTime/Shift/Carry.antt =====
-- The carries and borrows between the fields of a time of day, and the milliseconds that a date and
-- time stands for.
use native.Mathlib.Decide.{dec_lt}
use operation_front_line.Common.{
  ℕ, ◌+◌, ◌*◌, ◌≤◌, ◌<◌, ◌≡◌, refl, lt→ltb, ge→ltb, gt→leb, u32_mod, arith,
}
use operation_front_line.DateTime.{
  DateTime, Result, ok, set_hour, set_minute, set_second, set_millisecond,
}
use operation_front_line.DateTime.Shift.{carry_into, borrow, carry}
use operation_front_line.DateTime.Calendar.{IsValid, ordinal}
use operation_front_line.DateTime.Store.{copy_lem}

-- Milliseconds since the day before January 1st of year 1.
abbrev pub instant : DateTime → ℕ
instant t =
    ordinal t * 86400000 + t.hour * 3600000 + t.minute * 60000 + t.second * 1000 + t.millisecond

-- `r` is the valid date and time at `z` milliseconds that keeps what `K` says of `t`.
pub record Lands (K : DateTime → DateTime → Type 0) (t : DateTime) (z : ℕ) (r : Result DateTime)
    : Type 0 where
  pub date : DateTime
  pub returns : r ≡ ok date
  pub valid : IsValid date
  pub instant_is : instant date ≡ z
  pub kept : K t date

-- What the shifts by hours, minutes, seconds and milliseconds keep.
abbrev pub SameMinute : DateTime → DateTime → Type 0
SameMinute t u = (u.minute ≡ t.minute) × (u.second ≡ t.second) × (u.millisecond ≡ t.millisecond)

abbrev pub SameSecond : DateTime → DateTime → Type 0
SameSecond t u = (u.second ≡ t.second) × (u.millisecond ≡ t.millisecond)

abbrev pub SameMillisecond : DateTime → DateTime → Type 0
SameMillisecond t u = u.millisecond ≡ t.millisecond

abbrev pub Anything : DateTime → DateTime → Type 0
Anything t u = Unit {0}

-- A carry that is 0 moves nothing.
pub carry_into-Lands :
    (K : DateTime → DateTime → Type 0) (shift : DateTime → ℕ → Result DateTime) (t : DateTime)
    (n z : ℕ)
    → IsValid t
    → K t t
    → (n ≡ 0 → z ≡ instant t)
    → (0 < n → Lands K t z (shift t n))
    → Lands K t z (carry_into shift n t)
carry_into-Lands K shift t n z v k still moves = elim (dec_lt 0 n) [
  | yes p ↦
      let moved : Lands K t z (shift t n) = moves p in
      rw (lt→ltb p, moved.returns)
        (record {
          date = moved.date;
          returns = copy_lem moved.date moved.valid;
          valid = moved.valid;
          instant_is = moved.instant_is;
          kept = moved.kept;
        })
  | no p ↦ rw (ge→ltb p) (record {
    date = t;
    returns = refl;
    valid = v;
    instant_is = omega (arith, still (omega arith));
    kept = k;
  })
]

pub record Carries (base current n : ℕ) (c : ℕ × ℕ) : Type 0 where
  pub total : c.0 * base + c.1 ≡ current + n
  pub field_in : c.1 < base
  pub no_more : c.0 ≤ n

pub carry_24 :
    (current n : ℕ) → current < 24 → n < u32_mod → Carries 24 current n (carry 24 current n)
carry_24 current n h w = ground arith

pub carry_60 :
    (current n : ℕ) → current < 60 → n < u32_mod → Carries 60 current n (carry 60 current n)
carry_60 current n h w = ground arith

pub carry_1000 :
    (current n : ℕ) → current < 1000 → n < u32_mod → Carries 1000 current n (carry 1000 current n)
carry_1000 current n h w = ground arith

pub record Borrows (base current n : ℕ) (c : ℕ × ℕ) : Type 0 where
  pub total : c.1 + n ≡ current + c.0 * base
  pub field_in : c.1 < base
  pub no_more : c.0 ≤ n

pub borrow_24 :
    (current n : ℕ) → current < 24 → n < u32_mod → Borrows 24 current n (borrow 24 current n)
borrow_24 current n h w = ground arith

pub borrow_60 :
    (current n : ℕ) → current < 60 → n < u32_mod → Borrows 60 current n (borrow 60 current n)
borrow_60 current n h w = ground arith

pub borrow_1000 :
    (current n : ℕ) → current < 1000 → n < u32_mod → Borrows 1000 current n (borrow 1000 current n)
borrow_1000 current n h w = ground arith

pub set_hour_lem : (t : DateTime) (h : ℕ) → h < 24 → set_hour t h ≡ ok (record t { hour = h })
unfolding set_hour
set_hour_lem t h lt = rw (gt→leb {a = 24} {b = h} (omega arith))

pub set_minute_lem : (t : DateTime) (n : ℕ) → n < 60 → set_minute t n ≡ ok (record t { minute = n })
unfolding set_minute
set_minute_lem t n lt = rw (gt→leb {a = 60} {b = n} (omega arith))

pub set_second_lem : (t : DateTime) (n : ℕ) → n < 60 → set_second t n ≡ ok (record t { second = n })
unfolding set_second
set_second_lem t n lt = rw (gt→leb {a = 60} {b = n} (omega arith))

pub set_millisecond_lem :
    (t : DateTime) (n : ℕ) → n < 1000 → set_millisecond t n ≡ ok (record t { millisecond = n })
unfolding set_millisecond
set_millisecond_lem t n lt = rw (gt→leb {a = 1000} {b = n} (omega arith))
