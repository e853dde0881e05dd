-- ===== src/ConnectionPool/Counts.antt =====
-- How the list and set operations of the pool change the length and the count of each connection.
use operation_front_line.Common.{
  ℕ, suc, ◌+◌, ◌≡◌, ◌≤◌, refl, List, [], ◌∷◌, ◌++◌, ◌==◌, if◌then◌else◌, length, arith,
}
use operation_front_line.ConnectionPool.{count, set_insert, set_erase}

pub count-append : (d : ℕ) (xs ys : List ℕ) → count d (xs ++ ys) ≡ count d xs + count d ys
count-append d [] ys = omega arith
count-append d (x ∷ xs) ys = omega (arith, count-append d xs ys)

abbrev pub same : ℕ → ℕ → ℕ
same d c = if d == c then 1 else 0

-- A connection that the set does not hold goes in once.
pub count-set_insert :
    (d c : ℕ) (xs : List ℕ) → count c xs ≡ 0 → count d (set_insert c xs) ≡ same d c + count d xs
count-set_insert d c [] e = omega arith
count-set_insert d c (x ∷ xs) e = ground (arith, count-set_insert d c xs)

pub length-set_insert :
    (c : ℕ) (xs : List ℕ) → count c xs ≡ 0 → length (set_insert c xs) ≡ suc (length xs)
length-set_insert c [] e = refl
length-set_insert c (x ∷ xs) e = ground (arith, length-set_insert c xs)

-- One that it holds goes out once.
pub count-set_erase :
    (d c : ℕ) (xs : List ℕ) → 1 ≤ count c xs → same d c + count d (set_erase c xs) ≡ count d xs
count-set_erase d c [] e = absurd (omega arith)
count-set_erase d c (x ∷ xs) e = ground (arith, count-set_erase d c xs)

pub length-set_erase :
    (c : ℕ) (xs : List ℕ) → 1 ≤ count c xs → suc (length (set_erase c xs)) ≡ length xs
length-set_erase c [] e = absurd (omega arith)
length-set_erase c (x ∷ xs) e = ground (arith, length-set_erase c xs)
