-- ===== src/Lib.antt =====
-- Operation Front Line: the server extension of the game mode, as definitions and theorems.
--
-- The program. A game server loads the extension OPFL (OPFL/OPFL.cpp) and calls it with text messages.
-- A message is text (`ArmaMessage`). Each player has a thread and a mailbox (OPFL/ThreadHive.h), a worker
-- borrows database connections from a pool (OPFL/ConnectionPool.h) and reaches MySQL through
-- DatabaseConnector, which brings a date and time class (DatabaseConnector/DateTime.h and DateTime.cpp).
--
-- The files, and the code that each models:
--   Arma              OPFL/ThreadHive.h, `ArmaData` and `ArmaMessage`, the text that the game and the extension
--                     exchange. Arma/Numbers has the conversions of numbers, Parser the parser, Printer the
--                     printer, Message the messages. Parser/Scalars, Brackets, Passing and Endings follow the
--                     loops of the parser over printed text, Parser/RoundTrip and Message/RoundTrip put them
--                     together; Termination, TypedLoops, Typed and Refused are about any text. Object
--                     has an `ArmaData` that is set, cleared and parsed into, Object/Reuse is about the last.
--   HiveQueueC        OPFL/ThreadHive.h, `HiveQueueC<T>`, the ring buffer of the mailboxes: push, remove,
--                     peek, pop, grow, size. HiveQueueC/Invariant says which list a queue holds, Growth
--                     is about `grow`, Fifo about the calls, Client about sequences of them.
--   Mailbox           OPFL/ThreadHive.h, `sendMsg`, `sendAll`, `receiveMsg` and `receiveAll` of `ThreadHive<T>`,
--                     over HiveQueueC. Queue and Receive are about the calls, Client about the calls of
--                     several threads in any order. Blocker has the condition variable on which the
--                     receiver waits, Blocker/Wakeup is about its waking.
--   ThreadHive        OPFL/ThreadHive.h, `ThreadHandle<T>` and the rest of `ThreadHive<T>`: the list of the
--                     threads' handles. Destructor has the destructor. Chain says which handles a registry lists;
--                     Add, Find, Leave, Unlink and Destroy are about `addThread`, `getThreadHandle` and the
--                     destructor, Life about a whole thread.
--   HiveQueue         OPFL/ThreadHive.h, `HiveQueue<T>`, the same calls on a linked list, with the memory
--                     of its nodes. Chain says which list it holds, Push and Pop are about the calls.
--   ConnectionPool    OPFL/ConnectionPool.h, `ConnectionPool<T>`: the constructor, borrow, unborrow and
--                     get_stats. System adds the workers' `shared_ptr`s, Reach the moves of the workers.
--   Bans              OPFL/OPFL.cpp, the part of `mycallback` that counts early leaves and bans, and `IsBanned`;
--                     DatabaseConnector/OPFL_Account.h. Counter is about the counter, Clock about the hour
--                     that a ban runs.
--   Session           OPFL/OPFL.cpp, `mycallback` as the user of the pool: the loop that borrows the two
--                     connections of a session. Serve has the message loop and the end of a session; Owned,
--                     Connected and Serve/Departure are about what a session holds in the meantime and
--                     leaves behind. Reports has the texts that it sends, Reports/Read what a reader finds.
--   DateTimeDuration  DatabaseConnector/DateTime.cpp, `DateTimeDuration`: the carrying setters (Minutes,
--                     Milliseconds, Normal) and the comparisons (Order).
--   DateTime          DatabaseConnector/DateTime.cpp, `DateTime`. Calendar counts days independently of
--                     the code; Store, Setters, DayOfYear and NoSuchDay are about the setters, Order about
--                     the comparisons, Shift and its children about the additions and subtractions of
--                     days to milliseconds, Between and its children about those of a `DateTimeDuration`
--                     and `timeBetween`.
--   Common            tests, results, lists and integers that the others share.
--
-- How code becomes definitions. A class is a record of its fields, a method a function that returns the
-- changed record; C++ names keep their words in snake case, and the overloads of a name get the verb:
-- `year(unsigned int)` is set_year. `unsigned int` is a natural number below 2 ^ 32, with the wrap-around
-- of each sum and difference that can reach it written out (u32, sub32). An exception is a constructor of
-- the result type. An access outside an array, a read of an indeterminate cell or through a null or freed
-- pointer is a fault.
--
-- Bounds and fuel. A `while` loop is recursion on fuel, and a model that is out of fuel answers exhausted,
-- which no theorem below admits as an answer. The fuel is the loop's own bound plus one: the array size or
-- the tail for the loops of `grow`, the number of days for `subtractDays` and `addDays` (each turn takes
-- at least one day), the argument of a duration's setter, the year and the day for `timeBetween`, the
-- count for the destructor of the linked list, the number of threads for the loops over their handles, the
-- number of messages for `receiveAll`. The loops of the parser are one recursion on the characters; an
-- element is built with one unit of fuel less than the array around it, and the length of the text is
-- enough. `push` and `timeBetween` call themselves at most once, so their fuel is 2.
--
-- Not modelled: allocation failure; the methods of `DateTime` that only wrap the C library's time (`now`,
-- `mktime`, `difftime`, construction from `tm`); output to streams and files; the addresses of the
-- elements of an `ArmaData`; `jdThread`; the accesses of
-- the elements of a message by a session, and how its texts reach the mailboxes. A session's turns and
-- messages are lists, and its calls of the pool are not interleaved with those of other sessions.
-- `ConnectionFactory::create`, the allocator of list nodes, the answers of the database calls and the C
-- library's `time`, `gmtime_s` and `mktime` are arguments of the definitions that call them. So are the
-- type `float`, `std::stof`, its output with a fixed number of places and the size of a pointer.
-- `std::to_string`, `std::stoll`, `std::stoull` and the hexadecimal streams are written out in
-- Arma/Numbers.
pub mod Common
pub mod Arma
pub mod HiveQueueC
pub mod Mailbox
pub mod ThreadHive
pub mod HiveQueue
pub mod ConnectionPool
pub mod Bans
pub mod Session
pub mod DateTime
pub mod DateTimeDuration
