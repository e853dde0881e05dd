-- ===== src/Mailbox/Blocker.antt =====
-- OPFL/ThreadHive.h, the condition variable `blocker` of a handle: `sendMsg` and `sendAll` unlock the mutex and then
-- notify the thread that waits for messages, which is the handle's own. Between the two others may run.
pub mod Wakeup
use operation_front_line.Common.{
  ℕ, zero, suc, ◌+◌, ◌-◌, Bool, true, false, Option, none, some, List, [], ◌∷◌, ◌==◌, if◌then◌else◌,
  Outcome, done, ◌>>=◌,
}
use operation_front_line.Mailbox.{
  Mailbox, send_msg, send_all, receive_msg, receive_all, receive_all_turn,
}

-- `notices` are the calls that have unlocked the mutex and have not notified yet; `blocked` is whether the
-- thread waits on the condition variable.
pub record Blocker {ℓ} (A : Type ℓ) : Type ℓ where
  pub mailbox : Mailbox A
  pub notices : ℕ
  pub blocked : Bool

-- The parts of the calls, in any order: a sender's part under the mutex, its notification, and a turn of the
-- thread in a call that blocks or does not. A turn of a blocked thread is a wake-up, a spurious one included.
pub data Move {ℓ} (A : Type ℓ) : Type ℓ where
  sends : A → Move A
  sends_all : List A → Move A
  notifies : Move A
  waits : Move A
  waits_all : Move A
  takes : Move A
  takes_all : Move A

abbrev pub is_none {κ} : {B : Type κ} → Option B → Bool
is_none none = true
is_none (some x) = false

module _ {ℓ} {A : Type ℓ} where
  -- `sendMsg` and `sendAll` up to `unlock`.
  abbrev pub unlocked : Blocker A → Bool × Mailbox A → Outcome (Blocker A)
  unlocked w (result, b) = done (record w { mailbox = b; notices = w.notices + 1 })

  unfoldable pub send_unlock : Blocker A → A → Outcome (Blocker A)
  send_unlock w msg = send_msg w.mailbox msg >>= unlocked w

  unfoldable pub send_all_unlock : Blocker A → List A → Outcome (Blocker A)
  send_all_unlock w messages = send_all w.mailbox messages >>= unlocked w

  -- `blocker.notify_one()`
  unfoldable pub notify_one : Blocker A → Blocker A
  notify_one w = record w { notices = w.notices - 1; blocked = false }

  -- `blocker.wait(lk, myPred)`: a turn that finds no message blocks the thread.
  abbrev pub waited {κ} : {B : Type κ} → Blocker A → Option B × Mailbox A → Outcome (Blocker A)
  waited w (answer, b) = done (record w { mailbox = b; blocked = is_none answer })

  unfoldable pub wait_msg : Blocker A → Outcome (Blocker A)
  wait_msg w = receive_msg w.mailbox >>= waited w

  unfoldable pub wait_all : Blocker A → Outcome (Blocker A)
  wait_all w = receive_all_turn w.mailbox >>= waited w

  -- A call that does not block, of a thread that is not blocked.
  abbrev pub taken {κ} : {B : Type κ} → Blocker A → B × Mailbox A → Outcome (Blocker A)
  taken w (answer, b) = done (record w { mailbox = b })

  abbrev pub if_free : Bool → Blocker A → Outcome (Blocker A) → Outcome (Blocker A)
  if_free true w call = done w
  if_free false w call = call

  abbrev pub if_underway : ℕ → Blocker A → Blocker A
  if_underway zero w = w
  if_underway (suc n) w = notify_one w

  unfoldable pub move : Blocker A → Move A → Outcome (Blocker A)
  move w (sends m) = send_unlock w m
  move w (sends_all ms) = send_all_unlock w ms
  move w notifies = done (if_underway w.notices w)
  move w waits = wait_msg w
  move w waits_all = wait_all w
  move w takes = if_free w.blocked w (receive_msg w.mailbox >>= taken w)
  move w takes_all = if_free w.blocked w (receive_all w.mailbox >>= taken w)

  unfoldable pub run : Blocker A → List (Move A) → Outcome (Blocker A)
  run w [] = done w
  run w (m ∷ ms) = move w m >>= (λ w'. run w' ms)

  -- The notifications that are on the way arrive.
  unfoldable pub arrive : ℕ → Blocker A → Blocker A
  arrive zero w = w
  arrive (suc n) w = arrive n (notify_one w)
