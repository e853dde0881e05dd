-- ===== src/Session/Connected.antt =====
-- What the loop that borrows the connections of a session comes to.
use operation_front_line.Common.{ℕ, ◌≡◌, sym, Bool, true, false, Option, some, List, [], ◌∷◌, arith}
use operation_front_line.ConnectionPool.{borrow, unborrow}
use operation_front_line.ConnectionPool.System.{System, fewer, IsSound, Fresh, unborrow-IsSound}
use operation_front_line.Session.{
  Worker, Turn, Waiting, no_msg, commit_msg, other_msg, Attempt, passed, caught, let_go, keep_first,
  then_init, then_second, attempt, leave, early_commit, Connect, connected, returned, impossible,
  retrying, after_attempt, next_turn, connect,
}
use operation_front_line.Session.Owned.{
  Owns, OwnsBoth, let_go-holds, fewer-IsSound, AfterFirst, AfterBoth, keep_first-AfterFirst,
  keep_second-AfterBoth,
}

-- Where the first `borrow` of a turn hands out a connection, what the second may be given is new.
abbrev pub FreshSecond : Option ℕ → Attempt → Type 0
FreshSecond created (passed w) = Fresh (w.shared) created
FreshSecond created (caught stable w) = Unit

abbrev pub FreshTurn : Turn → Worker → Type 0
FreshTurn t w =
    Fresh (w.shared) t.created
    × FreshSecond t.created2 (keep_first w (borrow w.shared.outside t.created w.shared.manager))

abbrev pub FreshNext : (Worker → Type 0) → Connect → Type 0
FreshNext later (retrying w) = later w
FreshNext later _ = Unit

-- `create` hands out no address at which a connection lives, in any turn.
abbrev pub FreshTurns : List Turn → Worker → Type 0
FreshTurns [] w = Unit
FreshTurns (t ∷ ts) w =
    FreshTurn t w × FreshNext (FreshTurns ts) (after_attempt t.waiting (attempt t w))

-- A system that a worker has left: it is sound, and the `shared_ptr`s are those of the others.
pub record HasLeft (others : ℕ → ℕ) (s : System) : Type 0 where
  pub sound : IsSound s
  pub theirs : (c : ℕ) → s.outside c ≡ others c

abbrev pub Settled : (ℕ → ℕ) → Connect → Type 0
Settled others (connected w) = OwnsBoth others w
Settled others (returned s) = HasLeft others s
Settled others (impossible w) = Owns others w
Settled others (retrying w) = Owns others w

module _ (others : ℕ → ℕ) where
  then_init-AfterBoth :
      (on : Bool) (a : Attempt) → AfterBoth others a → AfterBoth others (then_init on a)
  then_init-AfterBoth true a h = h
  then_init-AfterBoth false (passed w) h = h.owns
  then_init-AfterBoth false (caught stable w) h = h

  then_second-AfterBoth :
      (created : Option ℕ) (a : Attempt)
      → AfterFirst others a
      → FreshSecond created a
      → AfterBoth others (then_second created a)
  then_second-AfterBoth created (passed w) (o, (c, is)) fresh =
      keep_second-AfterBoth others w created c o is fresh
  then_second-AfterBoth created (caught stable w) o fresh = o

  attempt-AfterBoth :
      (t : Turn) (w : Worker) → Owns others w → FreshTurn t w → AfterBoth others (attempt t w)
  unfolding attempt
  attempt-AfterBoth t w o (fresh, fresh2) =
      let a = keep_first w (borrow w.shared.outside t.created w.shared.manager) in
      then_init-AfterBoth t.thread_init (then_second t.created2 a) (
        then_second-AfterBoth t.created2 a (keep_first-AfterFirst others w t.created o fresh)
          fresh2)

  pub leave-HasLeft : (w : Worker) → Owns others w → HasLeft others (leave w)
  leave-HasLeft w o = record {
    sound =
        fewer-IsSound (w.shared) (let_go w.opflcon (let_go w.opflcon2 w.shared.outside)) o.sound
          (λ c. omega (
            arith,
            let_go-holds w.opflcon (let_go w.opflcon2 w.shared.outside) c,
            let_go-holds w.opflcon2 w.shared.outside c,
          ));
    theirs = λ c. omega (
      arith,
      o.split c,
      let_go-holds w.opflcon (let_go w.opflcon2 w.shared.outside) c,
      let_go-holds w.opflcon2 w.shared.outside c,
    );
  }

  -- The two connections of a worker are given back, and let go of.
  pub give_back-HasLeft :
      (s : System) (c c2 : ℕ)
      → Owns others (record { opflcon = some c; opflcon2 = some c2; shared = s })
      → HasLeft others (record {
        manager = unborrow c (unborrow c2 s.manager);
        outside = fewer (fewer s.outside c2) c;
      })
  give_back-HasLeft s c c2 o = record {
    sound =
        unborrow-IsSound (record { manager = unborrow c2 s.manager; outside = fewer s.outside c2 })
          c (unborrow-IsSound s c2 o.sound (ground (arith, o.split c2, o.alone c2, o.once c2)))
          (ground (arith, o.split c, o.alone c, o.once c));
    theirs = λ d. ground (arith, o.split d);
  }

  early_commit-HasLeft : (w : Worker) → OwnsBoth others w → HasLeft others (early_commit false w)
  early_commit-HasLeft w b =
      rw (b.is_first, b.is_second)
        (give_back-HasLeft w.shared b.first b.second (rw (sym b.is_first, sym b.is_second) b.owns))

  after_attempt-Settled :
      (m : Waiting) (a : Attempt) → AfterBoth others a → Settled others (after_attempt m a)
  after_attempt-Settled no_msg (passed w) h = h
  after_attempt-Settled no_msg (caught true w) h = h
  after_attempt-Settled no_msg (caught false w) h = h
  after_attempt-Settled other_msg (passed w) h = h
  after_attempt-Settled other_msg (caught true w) h = h
  after_attempt-Settled other_msg (caught false w) h = h
  after_attempt-Settled commit_msg (passed w) h = early_commit-HasLeft w h
  after_attempt-Settled commit_msg (caught stable w) h = leave-HasLeft w h

  next_turn-Settled :
      (later : Worker → Connect) (FreshLater : Worker → Type 0) (r : Connect)
      → ((w : Worker) → Owns others w → FreshLater w → Settled others (later w))
      → Settled others r
      → FreshNext FreshLater r
      → Settled others (next_turn later r)
  next_turn-Settled later FreshLater (connected w) go h fresh = h
  next_turn-Settled later FreshLater (returned s) go h fresh = h
  next_turn-Settled later FreshLater (impossible w) go h fresh = h
  next_turn-Settled later FreshLater (retrying w) go h fresh = go w h fresh

  -- Whatever the turns, with `create` answering no live address: a session that goes on has two different
  -- connections that nobody else holds, one that returns leaves a sound pool and no `shared_ptr` of its own, and
  -- one that gives up or tries again holds no connection that another one holds.
  pub connect-Settled :
      (ts : List Turn) (w : Worker)
      → Owns others w
      → FreshTurns ts w
      → Settled others (connect ts w)
  unfolding connect
  connect-Settled [] w o fresh = o
  connect-Settled (t ∷ ts) w o (fresh, later) =
      next_turn-Settled (connect ts) (FreshTurns ts) (after_attempt t.waiting (attempt t w))
        (connect-Settled ts)
        (after_attempt-Settled t.waiting (attempt t w) (attempt-AfterBoth t w o fresh)) later
