-- ===== src/Session/Tests.antt =====
-- A session that borrows its connections while another one holds connection 12.
use mathlib.Core.Option.{some-ne-none}
use operation_front_line.Common.{
  ℕ, ◌≡◌, refl, sym, true, none, some, List, [], ◌∷◌, ◌++◌, ◌==◌, if◌then◌else◌, pos, negsuc, arith,
}
use operation_front_line.ConnectionPool.{borrow}
use operation_front_line.ConnectionPool.System.{System}
use operation_front_line.Arma.{Platform}
use operation_front_line.Bans.{OpflAccount, Login, Database, Tm, TimeLibrary}
use operation_front_line.Session.Serve.{publish_kills, commit, Message, mycallback}
use operation_front_line.Session.Serve.Departure.{Departed, mycallback-Departed}
use operation_front_line.Session.Reports.{
  account_text, cleanup_text, crash_message, out_after_login,
}
use operation_front_line.Session.{Worker, Turn, no_msg, attempt}
use operation_front_line.Session.Owned.{Owns}
use operation_front_line.Session.Connected.{FreshTurns}

abbrev others : ℕ → ℕ
others c = if c == 12 then 1 else 0

abbrev system : System
system = record {
  manager = record { pool_size = 3; pool = 10 ∷ 11 ∷ []; borrowed = 12 ∷ [] };
  outside = others;
}

abbrev newcomer : Worker
newcomer = record { opflcon = none; opflcon2 = none; shared = system }

unequal : (c : ℕ) → ¬ (none ≡ some c)
unequal c e = some-ne-none c (sym e)

newcomer-Owns : Owns others newcomer
newcomer-Owns = record {
  sound = record { whole = refl; once = λ c. ground arith; held = λ c h. ground arith };
  split = λ c. omega arith;
  alone = λ c h. absurd (omega (arith, h));
  once = λ c. omega arith;
}

abbrev account : OpflAccount
account = record {
  second = pos 59;
  minute = pos 30;
  hour = pos 12;
  day = pos 3;
  month = pos 4;
  year = pos 2017;
  left = pos 5;
  chickens = negsuc 1;
  kills = pos 20;
  matches = pos 3;
  wins = pos 2;
  losses = pos 1;
  rank = pos 4;
  level = pos 0;
}

-- The database answers yes to everything, and the year is 2020 all along.
abbrev database : Database
database = record {
  create_account = true;
  get_account = λ a. (true, a);
  create_ban_data = true;
  get_ban_data = λ a. (true, a);
  write_ban_data = λ a. true;
  commit_data = true;
}

abbrev may_2020 : Tm
may_2020 = record {
  tm_year = pos 120;
  tm_mon = pos 4;
  tm_mday = pos 1;
  tm_hour = pos 0;
  tm_min = pos 0;
  tm_sec = pos 0;
}

abbrev time_library : TimeLibrary
time_library = record { now = 0; gmtime = λ t. may_2020; mktime = λ t. pos 0 }

abbrev quick_turns : List Turn
quick_turns = record { created = none; created2 = none; thread_init = true; waiting = no_msg } ∷ []

quick_turns_Fresh : FreshTurns quick_turns newcomer
unfolding attempt borrow
quick_turns_Fresh = ((λ c e. absurd (unequal c e), λ c e. absurd (unequal c e)), tt)

-- Two kills are published, and the commit is a punished one.
abbrev messages : List Message
messages =
    record { order = publish_kills (pos 2); answer = true }
    ∷ record { order = commit true; answer = true }
    ∷ []

mycallback-Departed_example :
    Departed others
      (mycallback database time_library may_2020 true account quick_turns messages newcomer)
mycallback-Departed_example =
    mycallback-Departed others database time_library may_2020 true account quick_turns messages
      newcomer newcomer-Owns quick_turns_Fresh

-- A float stands for its text.
abbrev platform : Platform (List ℕ)
platform = record { stof = λ s. some s; to_fixed = λ n s. s; wide_pointers = true }

abbrev begun : Login
begun = record { act = account; written = none; stable = true; banned = true }

abbrev player : List ℕ
player = b'7' ∷ b'6' ∷ []

abbrev player_i : List ℕ
player_i = b'7' ∷ b'I' ∷ []

abbrev player_o : List ℕ
player_o = b'7' ∷ b'O' ∷ []

-- The stream still holds the account when the text for the clean-up is written to it.
crash_message-begun :
    crash_message player_i player_o player begun
    ≡ account_text player begun ++ cleanup_text player_i player_o player
unfolding crash_message out_after_login
crash_message-begun = refl
