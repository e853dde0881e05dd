-- ===== src/Mailbox.antt =====
-- OPFL/ThreadHive.h, `ThreadHive<T>`: `sendMsg`, `sendAll`, `receiveMsg` and `receiveAll` on the mailbox of a
-- thread. Each runs under the mutex of the thread's handle, so they follow one another in some order. A
-- blocking call waits on a condition variable: what stands here is its turn, each time that it has the mutex, and
-- Blocker has the condition variable with the notifications of the calls that send.
pub mod Queue
pub mod Receive
pub mod Client
pub mod Blocker
mod Tests
use operation_front_line.Common.{
  ℕ, zero, suc, ◌+◌, ◌-◌, ◌^◌, Bool, true, false, Option, none, some, List, [], ◌∷◌, ltb, leb,
  if◌then◌else◌, u32, Outcome, done, fault, exhausted, ◌>>=◌,
}
use operation_front_line.HiveQueueC.{HiveQueueC, Buffer, store, new_array, push, pop, size}

-- The queue of the handle, and the `currentMsg` of the thread that reads it, `none` before the first message.
pub record Mailbox {ℓ} (A : Type ℓ) : Type ℓ where
  pub msg_queue : HiveQueueC A
  pub current_msg : Option A

-- What `receiveAll` answers, with its array and their `size`.
pub record Received {ℓ} (A : Type ℓ) : Type ℓ where
  pub result : Bool
  pub size_of : ℕ
  pub messages : Buffer A

-- `i++` of an `int`.
abbrev pub next_int : ℕ → Outcome ℕ
next_int i = if ltb (i + 1) (2 ^ 31) then done (i + 1) else fault

module _ {ℓ} {A : Type ℓ} where
  abbrev pub loaded : Mailbox A → Option A × HiveQueueC A → Bool × Mailbox A
  loaded b (some m, q) = (true, record { msg_queue = q; current_msg = some m })
  loaded b (none, q) = (false, record b { msg_queue = q })

  pub load_msg : Mailbox A → Outcome (Bool × Mailbox A)
  load_msg b =
      if ltb 0 (size (b.msg_queue))
      then pop (b.msg_queue) >>= (λ r. done (loaded b r))
      else done (false, b)

  pub send_msg : Mailbox A → A → Outcome (Bool × Mailbox A)
  send_msg b msg = push (b.msg_queue) msg >>= (λ r. done (r.0, record b { msg_queue = r.1 }))

  -- The loop of `sendAll`, whose answer is that of the last `push`.
  pub send_loop : Bool → Mailbox A → List A → Outcome (Bool × Mailbox A)
  send_loop result b [] = done (result, b)
  send_loop result b (m ∷ messages) = send_msg b m >>= (λ r. send_loop r.0 r.1 messages)

  pub send_all : Mailbox A → List A → Outcome (Bool × Mailbox A)
  send_all b messages = send_loop false b messages

  -- `msg = this->currentMsg`, by what `loadMsg` answered: `none` leaves `msg` as it is.
  abbrev pub take_current : Bool × Mailbox A → Outcome (Option A × Mailbox A)
  take_current (true, b) = elim (b.current_msg) [ some m ↦ done (some m, b) | none ↦ fault ]
  take_current (false, b) = done (none, b)

  -- `receiveMsg`, a turn of it where it blocks: `none` is the answer false, or to wait on.
  pub receive_msg : Mailbox A → Outcome (Option A × Mailbox A)
  receive_msg b = load_msg b >>= take_current

  -- `for (int i = …; this->loadMsg(); i++) messages[i] = this->currentMsg;`
  pub collect : ℕ → Mailbox A → ℕ → Buffer A → Outcome (Buffer A × Mailbox A)
  collect zero b i messages = exhausted
  collect (suc fuel) b i messages =
      let more = λ (b' : Mailbox A) (i' : ℕ) (m : Buffer A). collect fuel b' i' m in
      load_msg b >>= (λ r. elim r.0 [
        | true ↦ store messages i (r.1.current_msg) >>= (λ m. next_int i >>= (λ i'. more r.1 i' m))
        | false ↦ done (messages, r.1)
      ])

  -- `receiveAll(messages, size, false)`
  pub receive_all : Mailbox A → Outcome (Received A × Mailbox A)
  receive_all b =
      let n = size (b.msg_queue) in
      collect (suc n) b 0 (new_array n)
      >>= (λ r. done (record { result = ltb 0 n; size_of = n; messages = r.0 }, r.1))

  -- `receiveAll(messages, size, true)` behind the wait, where a message is loaded.
  abbrev pub receive_rest : Mailbox A → Outcome (Received A × Mailbox A)
  receive_rest b =
      let n = u32 (size (b.msg_queue) + 1) in
      store (new_array n) 0 (b.current_msg)
      >>= (λ m. collect (suc n) b 1 m)
      >>= (λ r. done (record { result = true; size_of = n; messages = r.0 }, r.1))

  abbrev pub after_wait : Bool × Mailbox A → Outcome (Option (Received A) × Mailbox A)
  after_wait (true, b) = receive_rest b >>= (λ r. done (some r.0, r.1))
  after_wait (false, b) = done (none, b)

  -- A turn of it: `none` is to wait on.
  pub receive_all_turn : Mailbox A → Outcome (Option (Received A) × Mailbox A)
  receive_all_turn b = load_msg b >>= after_wait
