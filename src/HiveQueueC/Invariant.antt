-- ===== src/HiveQueueC/Invariant.antt =====
-- `HiveQueueC<T>`: the well-formed queues, and which list of messages a queue holds.
use operation_front_line.Common.{
  ℕ, ◌+◌, ◌-◌, ◌≤◌, ◌<◌, ◌≡◌, Option, List, ltb, if◌then◌else◌, u32_mod, length, get_elem?,
}
use operation_front_line.HiveQueueC.{HiveQueueC, hq_init_size}

-- Where the `i`-th cell counted from index 0 lies, after at most one round trip.
abbrev pub ring_index : ℕ → ℕ → ℕ
ring_index n i = if ltb i n then i else i - n

pub record IsValid {ℓ} {A : Type ℓ} (q : HiveQueueC A) : Type ℓ where
  pub roomy : hq_init_size ≤ q.a_size
  pub word : q.a_size < u32_mod
  pub allocated : q.queue.size ≡ q.a_size
  pub head_in : q.head < q.a_size
  pub count_in : q.count ≤ q.a_size
  pub tail_at : 0 < q.count → q.tail ≡ ring_index q.a_size (q.head + q.count)

-- The `k`-th message of the queue is read `k` cells past the head.
abbrev pub slot {ℓ} : {A : Type ℓ} → HiveQueueC A → ℕ → Option A
slot q k = q.queue.cell (ring_index q.a_size (q.head + k))

pub record Holds {ℓ} {A : Type ℓ} (q : HiveQueueC A) (xs : List A) : Type ℓ where
  pub valid : IsValid q
  pub counted : q.count ≡ length xs
  pub slots : (k : ℕ) → k < length xs → slot q k ≡ get_elem? xs k
