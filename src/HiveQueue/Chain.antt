-- ===== src/HiveQueue/Chain.antt =====
-- `HiveQueue<T>`: the linked lists that hold a list of messages. `push` appends to it, `pop` takes its
-- first message and frees the node, and no pointer leads to a freed node.
use operation_front_line.Common.{
  ℕ, suc, ◌-◌, ◌<◌, ◌≡◌, ◌≢◌, refl, Option, none, some, List, [], ltb, if◌then◌else◌, length,
  get_elem?, arith, done,
}
use operation_front_line.HiveQueue.{Node, HiveQueue, update, deref, new}

-- The pointer to the `k`-th of `n` nodes, null past the last one.
abbrev pub pointer : (ℕ → ℕ) → ℕ → ℕ → Option ℕ
pointer addr n k = if ltb k n then some (addr k) else none

-- The `k`-th node carries the `k`-th message and leads to the next node.
pub record Placed {ℓ} {A : Type ℓ} (nodes : ℕ → Option (Node A)) (addr : ℕ → ℕ) (xs : List A)
    (k : ℕ) : Type ℓ where
  pub msg : A
  pub listed : get_elem? xs k ≡ some msg
  pub stored : nodes (addr k) ≡ some (record { msg = msg; next = pointer addr (length xs) (suc k) })

-- The nodes at the addresses `addr 0` on are the queue, and the memory holds no other.
pub record Holds {ℓ} {A : Type ℓ} (q : HiveQueue A) (xs : List A) : Type ℓ where
  pub addr : ℕ → ℕ
  pub counted : q.count ≡ length xs
  pub head_at : q.head ≡ pointer addr (length xs) 0
  pub tail_at : q.tail ≡ (if ltb 0 (length xs) then some (addr (length xs - 1)) else none)
  pub distinct : (i j : ℕ) → i < length xs → j < length xs → addr i ≡ addr j → i ≡ j
  pub placed : (k : ℕ) → k < length xs → Placed q.nodes addr xs k
  pub no_other : (p : ℕ) → ((k : ℕ) → k < length xs → addr k ≢ p) → q.nodes p ≡ none

module _ {ℓ} {A : Type ℓ} where
  pub new-Holds : Holds (new {A = A}) []
  unfolding new
  new-Holds = record {
    addr = λ k. k;
    counted = refl;
    head_at = refl;
    tail_at = refl;
    distinct = λ i j h. absurd (omega arith);
    placed = λ k h. absurd (omega arith);
    no_other = λ p h. refl;
  }

  pub update-at :
      (nodes : ℕ → Option (Node A)) (p i : ℕ) (v : Option (Node A)) → i ≡ p → update nodes p v i ≡ v
  update-at nodes p i v e = ground arith

  pub deref_lem :
      (nodes : ℕ → Option (Node A)) (p : ℕ) (n : Node A) → nodes p ≡ some n → deref nodes p ≡ done n
  deref_lem nodes p n e = rw (deref, e) refl

  pub update-off :
      (nodes : ℕ → Option (Node A)) (p i : ℕ) (v : Option (Node A))
      → i ≢ p
      → update nodes p v i ≡ nodes i
  update-off nodes p i v ne = ground arith
