-- ===== src/Bans/Tests.antt =====
-- The counter of early leaves of concrete players.
use operation_front_line.Common.{ℕ, ◌+◌, ◌≡◌, refl, true, false, pos, negsuc, arith}
use operation_front_line.Bans.{
  TimeLibrary, ban_running, is_banned, Tm, stamp, OpflAccount, Database, login, login_checked,
  logout,
}
use operation_front_line.Bans.Clock.{ban_running-stamp}
use operation_front_line.Bans.Counter.{
  leaves, play, play-leaves, login_rejoin, WritesBounded, session-WritesBounded,
}

abbrev account : ℕ → OpflAccount
account left = record {
  second = pos 8000;
  minute = pos 0;
  hour = pos 0;
  day = pos 1;
  month = pos 1;
  year = pos 2000;
  left = pos left;
  chickens = pos 0;
  kills = pos 0;
  matches = pos 0;
  wins = pos 0;
  losses = pos 0;
  rank = pos 0;
  level = pos 0;
}

-- May 17th of 2020.
abbrev may_2020 : Tm
may_2020 = record {
  tm_year = pos 120;
  tm_mon = pos 4;
  tm_mday = pos 17;
  tm_hour = pos 20;
  tm_min = pos 15;
  tm_sec = pos 0;
}

-- A calendar without dates, where every time is seconds, in a time zone an hour ahead.
abbrev calendar : TimeLibrary
calendar = record {
  now = 9000;
  gmtime = λ n. record {
    tm_year = pos 0;
    tm_mon = pos 0;
    tm_mday = pos 0;
    tm_hour = pos 0;
    tm_min = pos 0;
    tm_sec = pos n;
  };
  mktime = λ tm. elim tm.tm_sec [ pos n ↦ pos (n + 3600) | negsuc n ↦ negsuc n ];
}

ban_running-stamp_example : ban_running calendar (stamp (calendar.gmtime 6000) (account 5)) ≡ true
ban_running-stamp_example = ban_running-stamp calendar (pos 3600) 6000 (account 5) (λ n. refl)

-- A database that stores one player and answers every call.
abbrev stored : ℕ → Database
stored left = record {
  create_account = true;
  get_account = λ a. (true, a);
  create_ban_data = true;
  get_ban_data = λ a. (true, record a { left = pos left });
  write_ban_data = λ a. true;
  commit_data = true;
}

play-leaves_example : play may_2020 (leaves 5) (account 0) ≡ stamp may_2020 (account 5)
play-leaves_example = play-leaves may_2020 5 0 (account 0) refl (omega arith) (omega arith)

login_rejoin_example : (login (stored 5) calendar true true (account 0)).banned ≡ false
unfolding login login_checked
login_rejoin_example = login_rejoin (stored 5) calendar (account 0) (λ a. omega arith) refl

-- The same player, whose ban is running, without the rejoin flag.
login_banned : (login (stored 5) calendar false true (account 0)).banned ≡ true
unfolding login login_checked is_banned
login_banned = refl

session-WritesBounded_example :
    WritesBounded (login (stored 5) calendar true true (account 0)).written
    × WritesBounded (logout (stored 5) may_2020 true (account 0)).written
session-WritesBounded_example =
    session-WritesBounded (stored 5) calendar may_2020 true true true (account 0) (λ a. omega arith)
