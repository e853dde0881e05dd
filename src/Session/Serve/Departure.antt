-- ===== src/Session/Serve/Departure.antt =====
-- What a session leaves behind.
use operation_front_line.Common.{
  ℕ, ◌≡◌, refl, sym, Bool, true, false, Option, none, some, List, if◌then◌else◌, arith,
}
use operation_front_line.ConnectionPool.{unborrow}
use operation_front_line.ConnectionPool.System.{System, fewer, unborrow-IsSound}
use operation_front_line.Bans.{OpflAccount, Database, Tm, TimeLibrary, Login, login}
use operation_front_line.Session.{
  Worker, Turn, Connect, connected, returned, impossible, retrying, connect, leave,
}
use operation_front_line.Session.Connected.{
  HasLeft, Settled, FreshTurns, connect-Settled, leave-HasLeft, give_back-HasLeft,
}
use operation_front_line.Session.Owned.{Owns, OwnsBoth, fewer-IsSound}
use operation_front_line.Session.Serve.{
  Message, Ending, serving, crashed, closed, Session, waiting, over, null_pointer, serve,
  after_commit, end_session, end_refused, begin_session, after_connect, mycallback,
}

-- A session that waits holds what it owns, one that is over has left, and one that follows a null pointer has
-- not had a first connection.
abbrev pub Departed : (ℕ → ℕ) → Session → Type 0
Departed others (waiting w) = Owns others w
Departed others (over s) = HasLeft others s
Departed others (null_pointer w) = Owns others w × (w.opflcon ≡ none)

module _ (others : ℕ → ℕ) where
  second_back-HasLeft :
      (s : System) (c c2 : ℕ)
      → Owns others (record { opflcon = some c; opflcon2 = some c2; shared = s })
      → HasLeft others
          (record { manager = unborrow c2 s.manager; outside = fewer (fewer s.outside c2) c })
  second_back-HasLeft s c c2 o = record {
    sound =
        fewer-IsSound (record { manager = unborrow c2 s.manager; outside = fewer s.outside c2 })
          (fewer (fewer s.outside c2) c)
          (unborrow-IsSound s c2 o.sound (ground (arith, o.split c2, o.alone c2, o.once c2)))
          (λ d. ground arith);
    theirs = λ d. ground (arith, o.split d);
  }

  first_back-HasLeft :
      (s : System) (c c2 : ℕ)
      → Owns others (record { opflcon = some c; opflcon2 = some c2; shared = s })
      → HasLeft others
          (record { manager = unborrow c s.manager; outside = fewer (fewer s.outside c2) c })
  first_back-HasLeft s c c2 o = record {
    sound =
        fewer-IsSound (record { manager = unborrow c s.manager; outside = fewer s.outside c })
          (fewer (fewer s.outside c2) c)
          (unborrow-IsSound s c o.sound (ground (arith, o.split c, o.alone c, o.once c)))
          (λ d. ground arith);
    theirs = λ d. ground (arith, o.split d);
  }

  after_commit-HasLeft :
      (s : System) (c c2 : ℕ) (second first : Bool)
      → (w : Worker) → w ≡ record { opflcon = some c; opflcon2 = some c2; shared = s }
      → Owns others w
      → HasLeft others
          (leave (record w { shared = record w.shared { manager = after_commit w second first } }))
  after_commit-HasLeft s c c2 true true w e o =
      rw e (give_back-HasLeft others s c c2 (rw (sym e) o))
  after_commit-HasLeft s c c2 true false w e o = rw e (second_back-HasLeft s c c2 (rw (sym e) o))
  after_commit-HasLeft s c c2 false true w e o = rw e (first_back-HasLeft s c c2 (rw (sym e) o))
  after_commit-HasLeft s c c2 false false w e o = leave-HasLeft others w o

  end_session-Departed :
      (w : Worker) (e : Ending) → OwnsBoth others w → Departed others (end_session w e)
  end_session-Departed w (serving act) b = b.owns
  end_session-Departed w (crashed act) b = leave-HasLeft others w b.owns
  end_session-Departed w (closed l answer) b =
      after_commit-HasLeft w.shared b.first b.second l.unborrowed answer w
        (rw (b.is_first, b.is_second) refl) b.owns

  end_refused-Departed :
      (o : Option ℕ) (w : Worker)
      → w.opflcon ≡ o
      → Owns others w
      → Departed others (end_refused o w)
  end_refused-Departed none w e h = (h, e)
  end_refused-Departed (some c) w e h = leave-HasLeft others w h

  begin_session-Departed :
      (db : Database) (gmt : Tm) (ms : List Message) (w : Worker) (l : Login)
      → OwnsBoth others w
      → Departed others (begin_session db gmt ms w l)
  begin_session-Departed db gmt ms w l b = stably l.stable
    where
      stably :
          (on : Bool)
          → Departed others
              (if on then end_session w (serve db gmt l.act ms).1 else end_refused w.opflcon w)
      stably true = end_session-Departed w (serve db gmt l.act ms).1 b
      stably false = end_refused-Departed w.opflcon w refl b.owns

  after_connect-Departed :
      (db : Database) (c : TimeLibrary) (gmt : Tm) (rejoin : Bool) (act : OpflAccount)
      (ms : List Message) (r : Connect)
      → Settled others r
      → Departed others (after_connect db c gmt rejoin act ms r)
  after_connect-Departed db c gmt rejoin act ms (connected w) h =
      begin_session-Departed db gmt ms w (login db c rejoin true act) h
  after_connect-Departed db c gmt rejoin act ms (returned s) h = h
  after_connect-Departed db c gmt rejoin act ms (impossible w) h =
      end_refused-Departed w.opflcon w refl h
  after_connect-Departed db c gmt rejoin act ms (retrying w) h = h

  -- Whatever the turns, the messages and the answers of the database, with `create` answering no live address: a
  -- session that is over leaves a sound pool and no `shared_ptr` of its own, one that still runs holds no
  -- connection that another one holds, and one that calls through a null pointer has no first connection.
  pub mycallback-Departed :
      (db : Database) (c : TimeLibrary) (gmt : Tm) (rejoin : Bool) (act : OpflAccount)
      (ts : List Turn) (ms : List Message) (w : Worker)
      → Owns others w
      → FreshTurns ts w
      → Departed others (mycallback db c gmt rejoin act ts ms w)
  unfolding mycallback
  mycallback-Departed db c gmt rejoin act ts ms w o fresh =
      after_connect-Departed db c gmt rejoin act ms (connect ts w)
        (connect-Settled others ts w o fresh)
