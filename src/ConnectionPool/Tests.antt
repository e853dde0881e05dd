-- ===== src/ConnectionPool/Tests.antt =====
-- The pool with two connections and concrete workers.
use mathlib.Core.Option.{some-injective}
use operation_front_line.Common.{
  ℕ, ◌+◌, ◌≡◌, refl, some, Option, [], ◌∷◌, ◌==◌, if◌then◌else◌, arith,
}
use operation_front_line.ConnectionPool.{given, new, borrow, replace_abandoned, find_abandoned}
use operation_front_line.ConnectionPool.System.{
  System, more, fewer, IsSound, Fresh, Answered, borrow-Answered,
}
use operation_front_line.ConnectionPool.Reach.{Built, new-Built}

-- A factory that never throws and never repeats an address.
abbrev factory : ℕ → Option ℕ
factory n = some (n + 10)

new-Built_example : Built 2 factory (new 2 factory)
new-Built_example =
    new-Built 2 factory
      (λ i j c a b. omega (arith, some-injective (i + 10) c a, some-injective (j + 10) c b))

-- One worker holds connection 11; connection 10 was borrowed and dropped.
abbrev dropped : System
dropped = record {
  manager = record { pool_size = 2; pool = []; borrowed = 10 ∷ 11 ∷ [] };
  outside = λ c. if c == 11 then 1 else 0;
}

dropped-IsSound : IsSound dropped
dropped-IsSound = record { whole = refl; once = λ c. ground arith; held = λ c h. ground arith }

twelve_Fresh : Fresh dropped (some 12)
twelve_Fresh c e = ground (arith, some-injective 12 c e)

borrow-Answered_example :
    Answered dropped (some 12) (borrow dropped.outside (some 12) dropped.manager)
borrow-Answered_example = borrow-Answered dropped (some 12) dropped-IsSound twelve_Fresh

-- That call destroys connection 10 and hands out connection 12.
borrow_replaces :
    borrow dropped.outside (some 12) dropped.manager
    ≡ (given 12, record { pool_size = 2; pool = []; borrowed = 11 ∷ 12 ∷ [] })
unfolding borrow replace_abandoned find_abandoned
borrow_replaces = refl

-- The worker with connection 11 returns it after another one was given connection 12.
abbrev moved_on : System
moved_on = record {
  manager = record { pool_size = 2; pool = 11 ∷ []; borrowed = 12 ∷ [] };
  outside = fewer (more dropped.outside 12) 11;
}
