-- ===== src/HiveQueueC/Client.antt =====
-- What a sequence of calls on `HiveQueueC<T>` answers, against a plain list.
use operation_front_line.Common.{
  ◌+◌, ◌<◌, ◌≡◌, refl, inl, inr, Bool, true, Option, none, some, List, [], ◌∷◌, ◌++◌, u32_mod,
  length, length-append, arith, Outcome, done, ◌>>=◌,
}
use native.Mathlib.Decide.{dec_lt}
use operation_front_line.HiveQueueC.{HiveQueueC, hq_init_size, push, pop}
use operation_front_line.HiveQueueC.Invariant.{Holds}
use operation_front_line.HiveQueueC.Fifo.{
  Accepted, Delivered, push-Accepted, pop-Delivered, pop-nil,
}

pub data Op {ℓ} (A : Type ℓ) : Type ℓ where
  put : A → Op A
  take : Op A

pub data Reply {ℓ} (A : Type ℓ) : Type ℓ where
  accepted : Bool → Reply A
  taken : Option A → Reply A

module _ {ℓ} {A : Type ℓ} where
  -- The answers of the code.
  unfoldable pub run : HiveQueueC A → List (Op A) → Outcome (List (Reply A))
  run q [] = done []
  run q (put x ∷ ops) = push q x >>= λ r. run r.1 ops >>= λ replies. done (accepted r.0 ∷ replies)
  run q (take ∷ ops) = pop q >>= λ r. run r.1 ops >>= λ replies. done (taken r.0 ∷ replies)

  -- The answers of an unbounded first-in first-out list.
  unfoldable pub fifo : List A → List (Op A) → List (Reply A)
  fifo xs [] = []
  fifo xs (put x ∷ ops) = accepted true ∷ fifo (xs ++ (x ∷ [])) ops
  fifo [] (take ∷ ops) = taken none ∷ fifo [] ops
  fifo (x ∷ xs) (take ∷ ops) = taken (some x) ∷ fifo xs ops

  -- From a queue that holds `xs`, every sequence of pushes and pops gets the answers that a
  -- first-in first-out list gives from `xs`, as long as the length of `xs` and the number of
  -- calls leave room for one more growth below 2 ^ 32.
  pub run-eq-fifo :
      (ops : List (Op A)) (q : HiveQueueC A) (xs : List A)
      → Holds q xs
      → length xs + length ops + hq_init_size < u32_mod
      → run q ops ≡ done (fifo xs ops)
  unfolding run fifo
  run-eq-fifo [] q xs h small = refl
  run-eq-fifo (put x ∷ ops) q xs h small = rw (
    r.returns,
    run-eq-fifo ops r.next (xs ++ (x ∷ [])) r.holds (omega (arith, length-append xs (x ∷ []))),
  )
    where
      r : Accepted (xs ++ (x ∷ [])) (push q x)
      r =
          push-Accepted x h (elim (dec_lt q.count q.a_size) [
            | yes p ↦ inl p
            | no p ↦ inr (omega (arith, h.counted))
          ])
  run-eq-fifo (take ∷ ops) q [] h small = rw (pop-nil q h, run-eq-fifo ops q [] h (omega arith))
  run-eq-fifo (take ∷ ops) q (x ∷ xs) h small =
      rw (r.returns, run-eq-fifo ops r.next xs r.holds (omega arith))
    where
      r : Delivered x xs (pop q)
      r = pop-Delivered q x xs h
