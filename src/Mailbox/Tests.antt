-- ===== src/Mailbox/Tests.antt =====
-- Runs of a mailbox, and instances of the theorems on it.
use operation_front_line.Common.{ℕ, ◌≡◌, refl, none, some, List, [], ◌∷◌, true, false, arith, done}
use operation_front_line.HiveQueueC.{new}
use operation_front_line.HiveQueueC.Fifo.{new-Holds}
use operation_front_line.Mailbox.{Mailbox}
use operation_front_line.Mailbox.Blocker.{Blocker, Move, sends, sends_all, notifies, waits, run}
use operation_front_line.Mailbox.Blocker.Wakeup.{Ran, empty, run-Served}
use operation_front_line.Mailbox.Client.{
  Op, send, send_many, receive, receive_many, wait_many, accepted, received, received_many, answers,
  reference, answers-eq-reference,
}

abbrev empty_box : Mailbox ℕ
empty_box = record { msg_queue = new; current_msg = none }

abbrev calls : List (Op ℕ)
calls = send 3 ∷ wait_many ∷ wait_many ∷ send_many (4 ∷ 5 ∷ []) ∷ receive ∷ receive_many ∷ []

answers-eq-reference_example :
    answers empty_box calls
    ≡ done (
        accepted true
        ∷ received_many (some (true, some 3 ∷ []))
        ∷ received_many none
        ∷ accepted true
        ∷ received (some 4)
        ∷ received_many (some (true, some 5 ∷ []))
        ∷ [])
unfolding reference
answers-eq-reference_example = answers-eq-reference calls empty_box [] new-Holds (omega arith)

-- The thread blocks on the empty mailbox before the sender has the mutex, and is woken behind it.
abbrev blocked_box : Blocker ℕ
blocked_box = record { mailbox = empty_box; notices = 0; blocked = false }

abbrev moves : List (Move ℕ)
moves = waits ∷ sends 3 ∷ notifies ∷ waits ∷ waits ∷ sends_all (4 ∷ 5 ∷ []) ∷ []

run-Served_example : Ran (run blocked_box moves)
run-Served_example = run-Served moves blocked_box [] new-Holds (empty refl) (omega arith)
