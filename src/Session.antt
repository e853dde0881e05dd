-- ===== src/Session.antt =====
-- OPFL/OPFL.cpp, the loop of `mycallback` that borrows the two connections of a session from the pool of
-- OPFL/ConnectionPool.h. The turns of the loop are a list: each has what `create` answers to its two calls of
-- `borrow`, whether `threadInit` of the driver returns, and the message that is waiting.
pub mod Owned
pub mod Connected
pub mod Reports
pub mod Serve
mod Tests
use operation_front_line.Common.{ℕ, Bool, true, false, Option, none, some, List, [], ◌∷◌}
use operation_front_line.ConnectionPool.{
  ConnectionPool, Borrow, given, connection_impossible, connection_unavailable, borrow, unborrow,
}
use operation_front_line.ConnectionPool.System.{System, more, fewer}

-- The local `shared_ptr`s, with the pool and all `shared_ptr`s to its connections.
pub record Worker : Type 0 where
  pub opflcon : Option ℕ
  pub opflcon2 : Option ℕ
  pub shared : System

-- A waiting message is `Commit` or another one.
pub data Waiting : Type 0 where
  no_msg commit_msg other_msg : Waiting

pub record Turn : Type 0 where
  pub created : Option ℕ
  pub created2 : Option ℕ
  pub thread_init : Bool
  pub waiting : Waiting

-- What the `try` block comes to: its end, or an exception, with `stable`.
pub data Attempt : Type 0 where
  passed : Worker → Attempt
  caught : Bool → Worker → Attempt

-- A `shared_ptr` that is destroyed, or assigned to.
abbrev pub let_go : Option ℕ → (ℕ → ℕ) → ℕ → ℕ
let_go none outside = outside
let_go (some c) outside = fewer outside c

abbrev pub keep_first : Worker → Borrow × ConnectionPool → Attempt
keep_first w (given c, p) = passed (record w {
  opflcon = some c;
  shared = record { manager = p; outside = let_go w.opflcon (more w.shared.outside c) };
})
keep_first w (connection_impossible, p) =
    caught false (record w { shared = record w.shared { manager = p } })
keep_first w (connection_unavailable, p) =
    caught true (record w { shared = record w.shared { manager = p } })

abbrev pub keep_second : Worker → Borrow × ConnectionPool → Attempt
keep_second w (given c, p) = passed (record w {
  opflcon2 = some c;
  shared = record { manager = p; outside = let_go w.opflcon2 (more w.shared.outside c) };
})
keep_second w (connection_impossible, p) =
    caught false (record w { shared = record w.shared { manager = p } })
keep_second w (connection_unavailable, p) =
    caught true (record w { shared = record w.shared { manager = p } })

abbrev pub then_init : Bool → Attempt → Attempt
then_init true a = a
then_init false (passed w) = caught true w
then_init false (caught stable w) = caught stable w

abbrev pub then_second : Option ℕ → Attempt → Attempt
then_second created (passed w) = keep_second w (borrow w.shared.outside created w.shared.manager)
then_second created (caught stable w) = caught stable w

-- The `try` block.
unfoldable pub attempt : Turn → Worker → Attempt
attempt t w =
    then_init (t.thread_init)
      (then_second (t.created2) (keep_first w (borrow w.shared.outside t.created w.shared.manager)))

abbrev pub give_back : Option ℕ → ConnectionPool → ConnectionPool
give_back none p = p
give_back (some c) p = unborrow c p

-- The locals are destroyed in the reverse of their order.
abbrev pub leave : Worker → System
leave w = record w.shared { outside = let_go w.opflcon (let_go w.opflcon2 w.shared.outside) }

-- The return for a `Commit` before the session has begun.
abbrev pub early_commit : Bool → Worker → System
early_commit true w = leave w
early_commit false w = leave (record w {
  shared = record w.shared {
    manager = give_back w.opflcon (give_back w.opflcon2 w.shared.manager);
  };
})

-- What the loop comes to: both connections, the return, `ConnectionImpossible`, or another turn.
pub data Connect : Type 0 where
  connected : Worker → Connect
  returned : System → Connect
  impossible : Worker → Connect
  retrying : Worker → Connect

-- The part of a turn behind the `try` block.
abbrev pub after_attempt : Waiting → Attempt → Connect
after_attempt commit_msg (passed w) = returned (early_commit false w)
after_attempt commit_msg (caught stable w) = returned (early_commit true w)
after_attempt _ (passed w) = connected w
after_attempt _ (caught false w) = impossible w
after_attempt _ (caught true w) = retrying w

abbrev pub next_turn : (Worker → Connect) → Connect → Connect
next_turn later (connected w) = connected w
next_turn later (returned s) = returned s
next_turn later (impossible w) = impossible w
next_turn later (retrying w) = later w

-- The loop, which is `retrying` where the turns end.
unfoldable pub connect : List Turn → Worker → Connect
connect [] w = retrying w
connect (t ∷ ts) w = next_turn (connect ts) (after_attempt t.waiting (attempt t w))
