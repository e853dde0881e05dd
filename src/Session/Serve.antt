-- ===== src/Session/Serve.antt =====
-- OPFL/OPFL.cpp, `mycallback` as a whole: the start of a session with its connections, the loop over its messages, and
-- its end. A message has what the database answers to the call that it leads to.
pub mod Departure
use operation_front_line.Common.{
  ℕ, ◌-◌, ◌^◌, ◌%◌, Bool, true, Option, none, some, List, [], ◌∷◌, if◌then◌else◌, ltb, ℤ, pos,
  negsuc,
}
use operation_front_line.ConnectionPool.{ConnectionPool}
use operation_front_line.ConnectionPool.System.{System}
use operation_front_line.Bans.{OpflAccount, Database, Tm, TimeLibrary, Login, login, Logout, logout}
use operation_front_line.Session.{
  Worker, Turn, Connect, connected, returned, impossible, retrying, connect, give_back, leave,
}

-- The numbers of a `PublishAccount`, from the second place of its array on.
pub record Published : Type 0 where
  pub rank : ℤ
  pub level : ℤ
  pub matches : ℤ
  pub wins : ℤ
  pub losses : ℤ
  pub kills : ℤ
  pub chickens : ℤ

-- A message by its name; any other name is the commit, with its punishment.
pub data Order : Type 0 where
  publish_kills publish_chickens : ℤ → Order
  publish_account : Published → Order
  commit : Bool → Order

-- `answer` is what the write answers, and for a commit what `CommitData` of the first connection answers.
pub record Message : Type 0 where
  pub order : Order
  pub answer : Bool

-- The calls of the first connection.
pub data Write : Type 0 where
  write_kills write_chickens : ℤ → Write
  write_account : OpflAccount → Write

-- A `long long int` stored in an `int`.
abbrev pub to_int : ℤ → ℤ
to_int (pos n) = let m = n % 2 ^ 32 in if ltb m (2 ^ 31) then pos m else negsuc (2 ^ 32 - 1 - m)
to_int (negsuc n) = let m = n % 2 ^ 32 in if ltb m (2 ^ 31) then negsuc m else pos (2 ^ 32 - 1 - m)

abbrev pub publish : Published → OpflAccount → OpflAccount
publish p act = record act {
  rank = to_int p.rank;
  level = to_int p.level;
  matches = p.matches;
  wins = p.wins;
  losses = p.losses;
  kills = p.kills;
  chickens = p.chickens;
}

-- What the loop over the messages comes to.
pub data Ending : Type 0 where
  serving crashed : OpflAccount → Ending
  closed : Logout → Bool → Ending

-- A write, behind which the loop goes on if it is answered true.
abbrev pub logged :
    Write → Bool → OpflAccount → (OpflAccount → List Write × Ending) → List Write × Ending
logged call answer act later =
    let (calls, ending) = later act in
    if answer then (call ∷ calls, ending) else (call ∷ [], crashed act)

abbrev pub handle :
    Database
    → Tm
    → OpflAccount
    → Order
    → Bool
    → (OpflAccount → List Write × Ending)
    → List Write × Ending
handle db gmt act (publish_kills z) answer later = logged (write_kills z) answer act later
handle db gmt act (publish_chickens z) answer later = logged (write_chickens z) answer act later
handle db gmt act (publish_account p) answer later =
    logged (write_account (publish p act)) answer (publish p act) later
handle db gmt act (commit punishment) answer later =
    ([], closed (logout db gmt punishment act) answer)

-- The loop, which is `serving` where the messages end.
unfoldable pub serve : Database → Tm → OpflAccount → List Message → List Write × Ending
serve db gmt act [] = ([], serving act)
serve db gmt act (m ∷ ms) = handle db gmt act m.order m.answer (λ act'. serve db gmt act' ms)

-- The connections that a commit gives back to the pool, the second one first.
abbrev pub after_commit : Worker → Bool → Bool → ConnectionPool
after_commit w second first =
    let p = if second then give_back w.opflcon2 w.shared.manager else w.shared.manager in
    if first then give_back w.opflcon p else p

pub data Session : Type 0 where
  waiting : Worker → Session
  over : System → Session
  null_pointer : Worker → Session

abbrev pub end_session : Worker → Ending → Session
end_session w (serving act) = waiting w
end_session w (crashed act) = over (leave w)
end_session w (closed l answer) =
    over (
      leave
        (record w { shared = record w.shared { manager = after_commit w l.unborrowed answer } }))

-- The end of a session that could not begin, which calls `ThreadEnd` of its first connection.
abbrev pub end_refused : Option ℕ → Worker → Session
end_refused none w = null_pointer w
end_refused (some c) w = over (leave w)

abbrev pub begin_session : Database → Tm → List Message → Worker → Login → Session
begin_session db gmt ms w l =
    if l.stable
    then (let (calls, ending) = serve db gmt l.act ms in end_session w ending)
    else end_refused w.opflcon w

-- What follows on the loop that borrows the connections. `act` is the account's memory.
abbrev pub after_connect :
    Database → TimeLibrary → Tm → Bool → OpflAccount → List Message → Connect → Session
after_connect db c gmt rejoin act ms (connected w) =
    begin_session db gmt ms w (login db c rejoin true act)
after_connect db c gmt rejoin act ms (returned s) = over s
after_connect db c gmt rejoin act ms (impossible w) = end_refused w.opflcon w
after_connect db c gmt rejoin act ms (retrying w) = waiting w

unfoldable pub mycallback :
    Database → TimeLibrary → Tm → Bool → OpflAccount → List Turn → List Message → Worker → Session
mycallback db c gmt rejoin act ts ms w = after_connect db c gmt rejoin act ms (connect ts w)
