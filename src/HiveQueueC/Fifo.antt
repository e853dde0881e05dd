-- ===== src/HiveQueueC/Fifo.antt =====
-- `HiveQueueC<T>`: a valid queue is a first-in first-out queue of the messages that it holds. `push`
-- appends, growing when the array is full; `pop` takes the oldest; nothing is lost, doubled or
-- reordered, and no access is out of bounds.
use native.Mathlib.Decide.{dec_lt}
use operation_front_line.Common.{
  lt→ltb, ge→ltb, ltb, u32, ℕ, suc, ◌+◌, ◌-◌, ◌≤◌, ◌<◌, ◌≡◌, leb, if◌then◌else◌, ◌≢◌, refl, ap, sym,
  ◌∙◌, ◌⊎◌, Bool, true, false, Option, none, some, List, [], ◌∷◌, ◌++◌, u32_mod, length,
  length-append, get_elem?-append_left, get_elem?-append_last, arith, Outcome, done,
}
use operation_front_line.HiveQueueC.{
  Buffer, HiveQueueC, hq_init_size, update, new, grow, push_first, push_room, push_fuel, push,
  relocate, remove, peek, pop, size,
}
use operation_front_line.HiveQueueC.Invariant.{IsValid, Holds, ring_index}
use operation_front_line.HiveQueueC.Growth.{Grown, relocate-Grown}

module _ {ℓ} {A : Type ℓ} where
  -- `r` is the answer true with a queue that holds `xs`.
  pub record Accepted (xs : List A) (r : Outcome (Bool × HiveQueueC A)) : Type ℓ where
    pub next : HiveQueueC A
    pub returns : r ≡ done (true, next)
    pub holds : Holds next xs

  pub new-Holds : Holds (new {A = A}) []
  unfolding new
  new-Holds = record { valid = ground arith; counted = refl; slots = λ k h. elim h [ ] }

module _ {ℓ} {A : Type ℓ} {q : HiveQueueC A} {xs : List A} (msg : A) (h : Holds q xs) where
  open q use {count, a_size, tail, head, queue}

  abbrev stored : ℕ → Buffer A
  stored i = record { size = queue.size; cell = update queue.cell i (some msg) }

  abbrev first : HiveQueueC A
  first = record q { tail = 1; count = 1; head = 0; queue = stored 0 }

  push_first-eq : push_first q msg ≡ done (true, first)
  unfolding push_first
  push_first-eq = ground (arith, h.valid.allocated, h.valid.roomy)

  first-Holds : count < 1 → Holds first (xs ++ (msg ∷ []))
  first-Holds e = record {
    valid = ground (arith, h.valid);
    counted = omega (arith, h.counted, length-append xs (msg ∷ []));
    slots = λ k lt.
        let last : k ≡ length xs = omega (arith, h.counted, length-append xs (msg ∷ [])) in
        at_zero (ring_index a_size (0 + k)) (ground (arith, h.counted, h.valid.roomy))
        ∙ sym (get_elem?-append_last xs msg k last);
  }
    where
      at_zero : (i : ℕ) → i ≡ 0 → update queue.cell 0 (some msg) i ≡ some msg
      at_zero i e = ground arith

  abbrev roomier : HiveQueueC A
  roomier = record q {
    queue = stored tail;
    tail = if leb a_size (tail + 1) then 0 else tail + 1;
    count = count + 1;
  }

  tail_in : 0 < count → count < a_size → tail < a_size
  tail_in pos lt = ground (arith, h.valid, h.valid.tail_at)

  push_room-eq : 0 < count → count < a_size → push_room q msg ≡ done (true, roomier)
  unfolding push_room
  push_room-eq pos lt = ground (arith, h.valid.allocated, h.valid.word, tail_in)

  roomier-Holds : 0 < count → count < a_size → Holds roomier (xs ++ (msg ∷ []))
  roomier-Holds pos lt = record {
    valid = ground (arith, h.valid, h.valid.tail_at);
    counted = omega (arith, h.counted, length-append xs (msg ∷ []));
    slots = λ k k_in. elim (dec_lt k (length xs)) [
      | yes p ↦
          elsewhere (ring_index a_size (head + k))
            (ground (arith, h.valid, h.valid.tail_at, h.counted))
          ∙ h.slots k p
          ∙ sym (get_elem?-append_left xs (msg ∷ []) k p)
      | no p ↦
          let last : k ≡ length xs = omega (arith, length-append xs (msg ∷ [])) in
          at_tail (ring_index a_size (head + k))
            (ground (arith, h.valid, h.valid.tail_at, h.counted))
          ∙ sym (get_elem?-append_last xs msg k last)
    ];
  }
    where
      elsewhere : (i : ℕ) → i ≢ tail → update queue.cell tail (some msg) i ≡ queue.cell i
      elsewhere i ne = ground arith

      at_tail : (i : ℕ) → i ≡ tail → update queue.cell tail (some msg) i ≡ some msg
      at_tail i e = ground arith

  -- `push` with fuel left for one call that need not grow.
  push_fuel-Accepted :
      (fuel : ℕ) → count < a_size → Accepted (xs ++ (msg ∷ [])) (push_fuel (suc fuel) q msg)
  unfolding push_fuel
  push_fuel-Accepted fuel lt = elim (dec_lt count 1) [
    | yes e ↦ record { next = first; returns = rw (lt→ltb e, push_first-eq); holds = first-Holds e }
    | no e ↦ record {
      next = roomier;
      returns = rw (ge→ltb e, lt→ltb lt, push_room-eq (omega arith) lt);
      holds = roomier-Holds (omega arith) lt;
    }
  ]

module _ {ℓ} {A : Type ℓ} {q : HiveQueueC A} {xs : List A} (msg : A) (h : Holds q xs) where
  open q use {count, a_size}

  grow-eq :
      (n : ℕ) → a_size < n → {g : HiveQueueC A} → relocate q n ≡ done g → grow q n ≡ done (true, g)
  unfolding grow
  grow-eq n lt e = ground arith

  push_fuel-grow :
      (fuel : ℕ) {g s : HiveQueueC A}
      → ¬ (count < 1)
      → ¬ (count < a_size)
      → grow q (u32 (a_size + hq_init_size)) ≡ done (true, g)
      → push_fuel fuel g msg ≡ done (true, s)
      → push_fuel (suc fuel) q msg ≡ done (true, s)
  unfolding push_fuel
  push_fuel-grow fuel some_in no_room e e' = rw (ge→ltb some_in, ge→ltb no_room, e, e')

  push_full-Accepted :
      count ≡ a_size → a_size + hq_init_size < u32_mod → Accepted (xs ++ (msg ∷ [])) (push q msg)
  unfolding push
  push_full-Accepted full word = record {
    next = pushed.next;
    returns =
        push_fuel-grow 1 (omega (arith, h.valid.roomy)) (omega arith)
          (rw no_wrap (grow-eq (a_size + hq_init_size) (omega arith) moved.returns)) pushed.returns;
    holds = pushed.holds;
  }
    where
      no_wrap : u32 (a_size + hq_init_size) ≡ a_size + hq_init_size
      no_wrap = omega arith

      moved : Grown q xs (a_size + hq_init_size) (relocate q (a_size + hq_init_size))
      moved = relocate-Grown q xs (a_size + hq_init_size) h full (omega arith) word

      pushed : Accepted (xs ++ (msg ∷ [])) (push_fuel 1 moved.grown msg)
      pushed =
          push_fuel-Accepted msg moved.holds 0
            (omega (arith, moved.new_size, moved.holds.counted, h.counted))

  -- On a queue that holds `xs`, `push` answers true and leaves a queue that holds `xs` and then
  -- the message, with the array grown by 50 cells where it was full; it is asked that the array
  -- has room or the grown size fits 32 bits.
  pub push-Accepted :
      (count < a_size) ⊎ (a_size + hq_init_size < u32_mod)
      → Accepted (xs ++ (msg ∷ [])) (push q msg)
  unfolding push
  push-Accepted room = elim (dec_lt count a_size) [
    | yes p ↦ push_fuel-Accepted msg h 1 p
    | no p ↦ push_full-Accepted (omega (arith, h.valid.count_in)) (omega arith)
  ]

-- A valid full queue whose grown size would wrap round at 2 ^ 32 answers false to `push` and
-- stays as it is.
pub push-refused {ℓ} :
    {A : Type ℓ} (q : HiveQueueC A) (msg : A)
    → IsValid q
    → q.count ≡ q.a_size
    → u32_mod ≤ q.a_size + hq_init_size
    → push q msg ≡ done (false, q)
unfolding push push_fuel grow
push-refused q msg v full wraps =
    let smaller : leb (u32 (q.a_size + hq_init_size)) q.a_size ≡ true = ground (arith, v.word) in
    rw (
      ge→ltb {a = q.count} {b = 1} (omega (arith, v.roomy)),
      ge→ltb {a = q.count} {b = q.a_size} (omega arith),
      smaller,
    )

-- `r` is the oldest message, with a queue that holds the others.
pub record Delivered {ℓ} {A : Type ℓ} (x : A) (xs : List A) (r : Outcome (Option A × HiveQueueC A))
    : Type ℓ where
  pub next : HiveQueueC A
  pub returns : r ≡ done (some x, next)
  pub holds : Holds next xs

module _ {ℓ} {A : Type ℓ} (q : HiveQueueC A) where
  open q use {count, a_size, head, queue}

  pub peek-cons : (x : A) (xs : List A) → Holds q (x ∷ xs) → peek q ≡ done (some x)
  unfolding peek
  peek-cons x xs h = rw (
    ge→ltb {a = count} {b = 1} (omega (arith, h.counted)),
    lt→ltb {a = head} {b = queue.size} (omega (arith, h.valid.allocated, h.valid.head_in)),
    front,
  )
    where
      front : queue.cell head ≡ some x
      front = ap queue.cell (ground (arith, h.valid.head_in)) ∙ h.slots 0 (omega arith)

  abbrev removed : HiveQueueC A
  removed = record q { head = if ltb head (a_size - 1) then head + 1 else 0; count = count - 1 }

  remove-eq : 0 < count → remove q ≡ (true, removed)
  unfolding remove
  remove-eq pos = rw (lt→ltb pos)

  removed-Holds : (x : A) (xs : List A) → Holds q (x ∷ xs) → Holds removed xs
  removed-Holds x xs h = record {
    valid = ground (arith, h.valid, h.valid.tail_at, h.counted);
    counted = omega (arith, h.counted);
    slots = λ k k_in.
        ap queue.cell (ground (arith, h.valid, h.counted)) ∙ h.slots (suc k) (omega arith);
  }

  -- On a queue that holds `x` and then `xs`, `pop` answers `x` and leaves a queue that holds
  -- `xs`.
  pub pop-Delivered : (x : A) (xs : List A) → Holds q (x ∷ xs) → Delivered x xs (pop q)
  unfolding pop
  pop-Delivered x xs h = record {
    next = removed;
    returns = rw (peek-cons x xs h, remove-eq (omega (arith, h.counted)));
    holds = removed-Holds x xs h;
  }

  -- `pop` of an empty queue answers false and changes nothing.
  pub pop-nil : Holds q [] → pop q ≡ done (none, q)
  unfolding pop peek
  pop-nil h = rw (lt→ltb {a = count} {b = 1} (omega (arith, h.counted)))

-- The size of a queue is the number of its messages.
pub size-Holds {ℓ} : {A : Type ℓ} {q : HiveQueueC A} {xs : List A} → Holds q xs → size q ≡ length xs
unfolding size
size-Holds h = h.counted
