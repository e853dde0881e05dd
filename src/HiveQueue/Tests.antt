-- ===== src/HiveQueue/Tests.antt =====
-- The linked-list queue on concrete messages.
use operation_front_line.Common.{
  ℕ, zero, suc, ◌<◌, ◌≡◌, ◌≢◌, refl, none, some, [], ◌∷◌, ◌==◌, if◌then◌else◌, arith,
}
use operation_front_line.HiveQueue.{HiveQueue, push, pop, destroy}
use operation_front_line.HiveQueue.Chain.{Placed, Holds}
use operation_front_line.HiveQueue.Push.{Pushed, push-Pushed}
use operation_front_line.HiveQueue.Pop.{Popped, pop-Popped, Emptied, destroy-Emptied}

-- The messages 3 and 4, in nodes at the addresses 7 and 9.
abbrev pair : HiveQueue ℕ
pair = record {
  count = 2;
  head = some 7;
  tail = some 9;
  nodes = λ p.
      if p == 7
      then some (record { msg = 3; next = some 9 })
      else if p == 9
      then some (record { msg = 4; next = none })
      else none;
}

abbrev address : ℕ → ℕ
address k = if k == 0 then 7 else 9

pair-Holds : Holds pair (3 ∷ 4 ∷ [])
pair-Holds = record {
  addr = address;
  counted = refl;
  head_at = refl;
  tail_at = refl;
  distinct = λ i j a b e. ground arith;
  placed = placed;
  no_other = λ p other. no_other p (other 0 (omega arith)) (other 1 (omega arith));
}
  where
    placed : (k : ℕ) → k < 2 → Placed pair.nodes address (3 ∷ 4 ∷ []) k
    placed zero h = record { msg = 3; listed = refl; stored = refl }
    placed (suc zero) h = record { msg = 4; listed = refl; stored = refl }
    placed (suc (suc k)) h = absurd (omega arith)

    no_other : (p : ℕ) → 7 ≢ p → 9 ≢ p → pair.nodes p ≡ none
    no_other p a b = ground arith

push-Pushed_example : Pushed (3 ∷ 4 ∷ 5 ∷ []) (push pair 8 5)
push-Pushed_example = push-Pushed pair 8 5 (3 ∷ 4 ∷ []) refl pair-Holds (omega arith)

pop-Popped_example : Popped 3 (4 ∷ []) (pop pair)
pop-Popped_example = pop-Popped pair 3 (4 ∷ []) pair-Holds (omega arith)

destroy-Emptied_example : Emptied (destroy pair)
destroy-Emptied_example = destroy-Emptied pair (3 ∷ 4 ∷ []) pair-Holds
