-- ===== src/ThreadHive/Tests.antt =====
-- A registry of two threads, and instances of the theorems on it.
use operation_front_line.Common.{
  ℕ, ◌≡◌, refl, ◌==◌, if◌then◌else◌, Option, none, some, [], ◌∷◌, true, false, arith, done,
}
use operation_front_line.HiveQueueC.{new}
use operation_front_line.ThreadHive.{ThreadHandle, Registry, get_thread_handle}
use operation_front_line.ThreadHive.Destructor.{destroy}
use operation_front_line.ThreadHive.Chain.{Lists}
use operation_front_line.ThreadHive.Destroy.{Departed, destroy-Departed}
use operation_front_line.ThreadHive.Find.{get_thread_handle-first_named}
use operation_front_line.ThreadHive.Life.{life, life-Departed}

abbrev handle : ℕ → ℕ → Option ℕ → ThreadHandle ℕ
handle shares name next = record {
  shares = shares;
  msg_queue = some new;
  call_back = none;
  hive_thread = none;
  parameters = none;
  thread_name = name ∷ [];
  finished = false;
  success = false;
  running = false;
  next = next;
}

abbrev two : Registry ℕ
two = record {
  thread_count = 2;
  head = some 10;
  tail = some 20;
  handles = λ p.
      if p == 10
      then some (handle 2 7 (some 20))
      else if p == 20
      then some (handle 1 8 none)
      else none;
}

two-Lists : Lists two (10 ∷ 20 ∷ [])
two-Lists = record {
  counted = refl;
  linked = (handle 2 7 (some 20), refl, refl, (handle 1 8 none, refl, refl, refl));
  distinct = ((omega arith, tt), (tt, tt));
  tail_at = refl;
}

destroy-Departed_example : Departed 20 0 (10 ∷ []) [] (destroy two (some 20))
destroy-Departed_example =
    destroy-Departed two 20 (10 ∷ []) [] (handle 1 8 none) refl two-Lists 0 refl (omega arith)

get_thread_handle-first_named_example : get_thread_handle two (8 ∷ []) ≡ done (some 20)
get_thread_handle-first_named_example =
    get_thread_handle-first_named two (10 ∷ 20 ∷ []) (8 ∷ []) two-Lists

life-Departed_example :
    Departed 30 0 (10 ∷ 20 ∷ []) [] (life two 30 0 new (9 ∷ []) none none 40 true)
life-Departed_example =
    life-Departed two 30 0 new (9 ∷ []) none none 40 true (10 ∷ 20 ∷ []) refl two-Lists
      (omega arith)
