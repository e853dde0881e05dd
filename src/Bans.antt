-- ===== src/Bans.antt =====
-- OPFL/OPFL.cpp, `mycallback`: how a session reads and writes the counter of early leaves and the date
-- of a ban, at its start and at its commit message, and `IsBanned`; DatabaseConnector/OPFL_Account.h. The database is a
-- parameter: the answers that its calls give. So is the C library's time.
-- The two connections give their answers by one record.
pub mod Counter
pub mod Clock
mod Tests
use operation_front_line.Common.{
  ℕ, zero, suc, ◌+◌, ◌-◌, ◌*◌, Bool, true, false, not, ◌&&◌, Option, none, some, ltb, if◌then◌else◌,
  ℤ, pos, negsuc,
}

-- The struct but for the pointer to the name.
pub record OpflAccount : Type 0 where
  pub second : ℤ
  pub minute : ℤ
  pub hour : ℤ
  pub day : ℤ
  pub month : ℤ
  pub year : ℤ
  pub left : ℤ
  pub chickens : ℤ
  pub kills : ℤ
  pub matches : ℤ
  pub wins : ℤ
  pub losses : ℤ
  pub rank : ℤ
  pub level : ℤ

-- The answers of the calls on the connections: what a read finds is written over the account.
pub record Database : Type 0 where
  pub create_account : Bool
  pub get_account : OpflAccount → Bool × OpflAccount
  pub create_ban_data : Bool
  pub get_ban_data : OpflAccount → Bool × OpflAccount
  pub write_ban_data : OpflAccount → Bool
  pub commit_data : Bool

-- `z > k` for a literal `k`, `z - 1` and `z + 1`.
abbrev pub exceeds : ℤ → ℕ → Bool
exceeds (pos n) k = ltb k n
exceeds (negsuc n) k = false

abbrev pub minus_one : ℤ → ℤ
minus_one (pos zero) = negsuc zero
minus_one (pos (suc n)) = pos n
minus_one (negsuc n) = negsuc (suc n)

abbrev pub plus_one : ℤ → ℤ
plus_one (pos n) = pos (suc n)
plus_one (negsuc zero) = pos zero
plus_one (negsuc (suc n)) = negsuc n

-- The fields of `struct tm` that `gmtime_s` fills.
pub record Tm : Type 0 where
  pub tm_year : ℤ
  pub tm_mon : ℤ
  pub tm_mday : ℤ
  pub tm_hour : ℤ
  pub tm_min : ℤ
  pub tm_sec : ℤ

-- `z + k` for a literal `k`.
abbrev pub add_literal : ℤ → ℕ → ℤ
add_literal (pos n) k = pos (n + k)
add_literal (negsuc n) k = if ltb n k then pos (k - suc n) else negsuc (n - k)

-- `z - k` for a literal `k`.
abbrev pub sub_literal : ℤ → ℕ → ℤ
sub_literal (pos n) k = if ltb n k then negsuc (k - suc n) else pos (n - k)
sub_literal (negsuc n) k = negsuc (n + k)

-- The C library's clock and calendar: `time(NULL)`, `gmtime_s` and `mktime`.
pub record TimeLibrary : Type 0 where
  pub now : ℕ
  pub gmtime : ℕ → Tm
  pub mktime : Tm → ℤ

-- `difftime(end, begin) < bound`
abbrev pub closer : ℤ → ℤ → ℕ → Bool
closer (pos e) (pos b) bound = ltb e (b + bound)
closer (pos e) (negsuc b) bound = ltb (e + suc b) bound
closer (negsuc e) (pos b) bound = true
closer (negsuc e) (negsuc b) bound = ltb b (e + bound)

-- A call with hours that are not negative, as all but a message's are.
pub is_banned : TimeLibrary → ℤ → ℤ → ℤ → ℤ → ℤ → ℤ → ℕ → Bool
is_banned c year mon day hour min sec ban_hours =
    closer (c.mktime (c.gmtime c.now))
      (c.mktime (record {
        tm_year = sub_literal year 1900;
        tm_mon = sub_literal mon 1;
        tm_mday = day;
        tm_hour = hour;
        tm_min = min;
        tm_sec = sec;
      }))
      (3600 * ban_hours)

-- The counter after a player rejoins.
pub left_on_rejoin : Bool → ℤ → ℤ
left_on_rejoin banned left =
    if exceeds left 0
    then (if exceeds left 4 && not banned then pos 0 else minus_one left)
    else pos 0

-- The date of a ban.
abbrev pub stamp : Tm → OpflAccount → OpflAccount
stamp gmt act = record act {
  year = add_literal gmt.tm_year 1900;
  month = add_literal gmt.tm_mon 1;
  day = gmt.tm_mday;
  hour = gmt.tm_hour;
  minute = gmt.tm_min;
  second = gmt.tm_sec;
}

-- The account at the end of a session that is punished, at the time `gmt`.
pub punish : Tm → OpflAccount → OpflAccount
punish gmt act =
    if exceeds act.left 4
    then record act { left = pos 1 }
    else if exceeds act.left 3
    then stamp gmt (record act { left = pos 5 })
    else record act { left = plus_one act.left }

-- What the start of a session leaves: its account, what it wrote, whether it goes on, and whether it
-- reports a ban.
pub record Login : Type 0 where
  pub act : OpflAccount
  pub written : Option OpflAccount
  pub stable : Bool
  pub banned : Bool

-- The part from the ban data on, for the answer of the reads.
pub login_checked : Database → Bool → Bool → OpflAccount → Bool → Login
login_checked db banned rejoin act stable =
    let counted : OpflAccount = record act { left = left_on_rejoin banned act.left } in
    if stable && rejoin
    then record {
      act = counted;
      written = some counted;
      stable = db.write_ban_data counted && db.commit_data;
      banned = banned && exceeds counted.left 4;
    }
    else record {
      act = act;
      written = none;
      stable = stable && db.commit_data;
      banned = banned && exceeds act.left 4;
    }

-- The call of `IsBanned` at the start of a session.
abbrev pub ban_running : TimeLibrary → OpflAccount → Bool
ban_running c act = is_banned c act.year act.month act.day act.hour act.minute act.second 1

-- Each call runs only while the session is stable.
abbrev pub read_account : Database → Bool × OpflAccount → Bool × OpflAccount
read_account db (stable, act) =
    if stable && db.create_account then db.get_account act else (false, act)

abbrev pub read_ban_data : Database → Bool × OpflAccount → Bool × OpflAccount
read_ban_data db (stable, act) =
    if stable && db.create_ban_data then db.get_ban_data act else (false, act)

pub login : Database → TimeLibrary → Bool → Bool → OpflAccount → Login
login db c rejoin stable act =
    let (got, act') = read_ban_data db (read_account db (stable, act)) in
    login_checked db (ban_running c act') rejoin act' got

-- What the commit message of a session leaves: its account, what it wrote, and whether the second
-- connection goes back to the pool.
pub record Logout : Type 0 where
  pub act : OpflAccount
  pub written : Option OpflAccount
  pub unborrowed : Bool

pub logout_read : Database → Tm → Bool → OpflAccount → Logout
logout_read db gmt got act =
    let punished = punish gmt act in
    if got
    then record {
      act = punished;
      written = some punished;
      unborrowed = db.write_ban_data punished && db.commit_data;
    }
    else record { act = act; written = none; unborrowed = false }

pub logout : Database → Tm → Bool → OpflAccount → Logout
logout db gmt punishment act =
    if punishment
    then (let (got, act₁) = db.get_ban_data act in logout_read db gmt got act₁)
    else record { act = act; written = none; unborrowed = true }
