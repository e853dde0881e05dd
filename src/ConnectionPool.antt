-- ===== src/ConnectionPool.antt =====
-- OPFL/ConnectionPool.h: `ConnectionPool<T>`. A connection is the address that its `shared_ptr`s hold; a
-- `std::set` of them is the list of the addresses in order. `ConnectionFactory::create` is not modelled:
-- its results are arguments, `none` for an exception. So are the `shared_ptr`s that the program holds
-- outside the pool: `outside` counts them for each connection. Each operation runs under the mutex.
pub mod Counts
pub mod System
pub mod Reach
mod Tests
use operation_front_line.Common.{
  ℕ, zero, suc, ◌+◌, true, false, Option, none, some, List, [], ◌∷◌, ◌++◌, ltb, ◌==◌, if◌then◌else◌,
  length,
}

pub record ConnectionPool : Type 0 where
  pub pool_size : ℕ
  pub pool : List ℕ
  pub borrowed : List ℕ

pub record ConnectionPoolStats : Type 0 where
  pub pool_size : ℕ
  pub borrowed_size : ℕ

pub get_stats : ConnectionPool → ConnectionPoolStats
get_stats p = record { pool_size = length p.pool; borrowed_size = length p.borrowed }

-- What `borrow` comes to: a connection, or one of the two exceptions.
pub data Borrow : Type 0 where
  given : ℕ → Borrow
  connection_impossible connection_unavailable : Borrow

-- The constructor's loop, with `missing` connections to create: `create n` is the result of the call
-- that finds `n` connections in the pool. An exception of `create` leaves the constructor.
pub fill : (ℕ → Option ℕ) → ℕ → List ℕ → Option (List ℕ)
fill create zero pool = some pool
fill create (suc missing) pool = elim (create (length pool)) [
  | some c ↦ fill create missing (pool ++ (c ∷ []))
  | none ↦ none
]

pub new : ℕ → (ℕ → Option ℕ) → Option ConnectionPool
new pool_size create = elim (fill create pool_size []) [
  | some pool ↦ some (record { pool_size = pool_size; pool = pool; borrowed = [] })
  | none ↦ none
]

-- `std::set::insert` and `std::set::erase` of a pointer.
abbrev pub set_insert : ℕ → List ℕ → List ℕ
set_insert c [] = c ∷ []
set_insert c (x ∷ xs) =
    if c == x then x ∷ xs else if ltb c x then c ∷ x ∷ xs else x ∷ set_insert c xs

abbrev pub set_erase : ℕ → List ℕ → List ℕ
set_erase c [] = []
set_erase c (x ∷ xs) = if c == x then xs else x ∷ set_erase c xs

-- How often a list holds a connection.
abbrev pub count : ℕ → List ℕ → ℕ
count c [] = 0
count c (x ∷ xs) = (if c == x then 1 else 0) + count c xs

-- `use_count()` of the `shared_ptr`s to a connection.
abbrev pub use_count : (ℕ → ℕ) → ConnectionPool → ℕ → ℕ
use_count outside p c = outside c + count c p.pool + count c p.borrowed

-- The loop over `borrowed`, to the first connection that is `unique()`.
unfoldable pub find_abandoned : (ℕ → ℕ) → ConnectionPool → List ℕ → Option ℕ
find_abandoned outside p [] = none
find_abandoned outside p (c ∷ cs) =
    let later = find_abandoned outside p cs in if use_count outside p c == 1 then some c else later

-- The branch of `borrow` for an empty pool; `created` is what `create` answers if it is called.
unfoldable pub replace_abandoned : (ℕ → ℕ) → Option ℕ → ConnectionPool → Borrow × ConnectionPool
replace_abandoned outside created p = elim (find_abandoned outside p p.borrowed) [
  | none ↦ (connection_unavailable, p)
  | some old ↦ elim created [
    | none ↦ (connection_impossible, p)
    | some c ↦ (given c, record p { borrowed = set_insert c (set_erase old p.borrowed) })
  ]
]

-- The rest of `borrow`, for what the pool holds.
abbrev pub take_front : (ℕ → ℕ) → Option ℕ → ConnectionPool → List ℕ → Borrow × ConnectionPool
take_front outside created p [] = replace_abandoned outside created p
take_front outside created p (c ∷ rest) =
    (given c, record p { pool = rest; borrowed = set_insert c p.borrowed })

unfoldable pub borrow : (ℕ → ℕ) → Option ℕ → ConnectionPool → Borrow × ConnectionPool
borrow outside created p = take_front outside created p p.pool

unfoldable pub unborrow : ℕ → ConnectionPool → ConnectionPool
unborrow c p = record p { pool = p.pool ++ (c ∷ []); borrowed = set_erase c p.borrowed }
