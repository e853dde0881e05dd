-- ===== src/HiveQueueC/Tests.antt =====
-- The ring buffer on concrete messages.
use operation_front_line.Common.{
  ℕ, ◌-◌, ◌≡◌, refl, true, false, none, some, List, [], ◌∷◌, u32_mod, arith, done,
}
use operation_front_line.HiveQueueC.{HiveQueueC, new, push}
use operation_front_line.HiveQueueC.Fifo.{new-Holds, push-refused}
use operation_front_line.HiveQueueC.Client.{Op, put, take, accepted, taken, run, fifo, run-eq-fifo}

abbrev calls : List (Op ℕ)
calls = put 3 ∷ put 4 ∷ take ∷ take ∷ take ∷ put 5 ∷ []

run-eq-fifo_example :
    run new calls
    ≡ done (
        accepted true
        ∷ accepted true
        ∷ taken (some 3)
        ∷ taken (some 4)
        ∷ taken none
        ∷ accepted true
        ∷ [])
unfolding fifo
run-eq-fifo_example = run-eq-fifo calls new [] new-Holds (omega arith)

-- A full array of 2 ^ 32 - 1 cells.
abbrev largest : HiveQueueC ℕ
largest = record {
  count = u32_mod - 1;
  a_size = u32_mod - 1;
  tail = 0;
  head = 0;
  queue = record { size = u32_mod - 1; cell = λ i. some 7 };
}

push-refused_example : push largest 8 ≡ done (false, largest)
push-refused_example = push-refused largest 8 (ground arith) refl (omega arith)
