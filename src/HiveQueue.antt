-- ===== src/HiveQueue.antt =====
-- OPFL/ThreadHive.h, `HiveQueue<T>`: the linked-list queue. `nodes` is the memory that its nodes live in:
-- the nodes that `new` made and `delete` has not freed, by address. `nullptr` is `none`. A read or write
-- through a null or freed pointer is a fault. The address that `new Node` answers is an argument.
pub mod Chain
pub mod Push
pub mod Pop
mod Tests
use operation_front_line.Common.{
  ℕ, zero, suc, ◌+◌, ◌-◌, Bool, true, false, Option, none, some, ◌==◌, if◌then◌else◌, u32, sub32,
  Outcome, done, fault, exhausted, ◌>>=◌,
}

pub record Node {ℓ} (A : Type ℓ) : Type ℓ where
  pub msg : A
  pub next : Option ℕ

pub record HiveQueue {ℓ} (A : Type ℓ) : Type ℓ where
  pub count : ℕ
  pub head : Option ℕ
  pub tail : Option ℕ
  pub nodes : ℕ → Option (Node A)

-- The tail after `remove`, by the new head.
abbrev pub tail_after : Option ℕ → Option ℕ → Option ℕ
tail_after none tail = none
tail_after (some h) tail = tail

module _ {ℓ} {A : Type ℓ} where
  -- The memory with the node at `p` made, written to or freed.
  abbrev pub update : (ℕ → Option (Node A)) → ℕ → Option (Node A) → ℕ → Option (Node A)
  update nodes p v i = if p == i then v else nodes i

  -- The node that a pointer leads to.
  abbrev pub deref : (ℕ → Option (Node A)) → ℕ → Outcome (Node A)
  deref nodes p = elim (nodes p) [ some n ↦ done n | none ↦ fault ]

  -- The constructor.
  pub new : HiveQueue A
  new = record { count = 0; head = none; tail = none; nodes = λ p. none }

  abbrev pub push_into :
      HiveQueue A → ℕ → Option ℕ → Option ℕ → (ℕ → Option (Node A)) → Outcome (HiveQueue A)
  push_into q address none tail nodes =
      done (record { count = 1; head = some address; tail = some address; nodes = nodes })
  push_into q address (some h) none nodes = fault
  push_into q address (some h) (some last) nodes = deref nodes last >>= λ n. done (record {
    count = u32 (q.count + 1);
    head = some h;
    tail = some address;
    nodes = update nodes last (some (record { msg = n.msg; next = some address }));
  })

  -- `push` always answers true.
  pub push : HiveQueue A → ℕ → A → Outcome (HiveQueue A)
  push q address msg =
      push_into q address q.head q.tail
        (update q.nodes address (some (record { msg = msg; next = none })))

  abbrev pub remove_from : HiveQueue A → Option ℕ → Outcome (Bool × HiveQueue A)
  remove_from q none = done (false, q)
  remove_from q (some temp) = deref q.nodes temp >>= λ n. done (
    true,
    record {
      count = sub32 q.count 1;
      head = n.next;
      tail = tail_after n.next q.tail;
      nodes = update q.nodes temp none;
    },
  )

  pub remove : HiveQueue A → Outcome (Bool × HiveQueue A)
  remove q = remove_from q q.head

  abbrev pub peek_at : (ℕ → Option (Node A)) → Option ℕ → Outcome (Option A)
  peek_at nodes none = done none
  peek_at nodes (some h) = deref nodes h >>= λ n. done (some n.msg)

  -- `none` is the answer false.
  pub peek : HiveQueue A → Outcome (Option A)
  peek q = peek_at q.nodes q.head

  pub pop : HiveQueue A → Outcome (Option A × HiveQueue A)
  pop q = peek q >>= λ r. elim r [
    | some m ↦ remove q >>= λ removed. done (if removed.0 then some m else none, removed.1)
    | none ↦ done (none, q)
  ]

  pub size : HiveQueue A → ℕ
  size q = q.count

  -- The destructor's loop, with the memory that is left.
  pub free_all : ℕ → (ℕ → Option (Node A)) → Option ℕ → Outcome (ℕ → Option (Node A))
  free_all zero nodes head = exhausted
  free_all (suc fuel) nodes none = done nodes
  free_all (suc fuel) nodes (some temp) =
      deref nodes temp >>= λ n. free_all fuel (update nodes temp none) n.next

  pub destroy : HiveQueue A → Outcome (ℕ → Option (Node A))
  destroy q = free_all (suc q.count) q.nodes q.head
