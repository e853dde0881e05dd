-- ===== src/HiveQueueC.antt =====
-- OPFL/ThreadHive.h, `HiveQueueC<T>`: the growing ring buffer behind every thread's mailbox.
-- A method returns the new queue beside its result. The array is its allocated size and its cells;
-- `none` in a cell stands for the indeterminate value of `new T[n]`.
pub mod Invariant
pub mod Growth
pub mod Fifo
pub mod Client
mod Tests
use operation_front_line.Common.{
  ℕ, zero, suc, ◌+◌, ◌-◌, Bool, true, false, Option, none, some, ltb, leb, ◌==◌, if◌then◌else◌, u32,
  Outcome, done, fault, exhausted, ◌>>=◌,
}

-- `HQ_INIT_SIZE`
abbrev pub hq_init_size : ℕ
hq_init_size = 50

pub record Buffer {ℓ} (A : Type ℓ) : Type ℓ where
  pub size : ℕ
  pub cell : ℕ → Option A

pub record HiveQueueC {ℓ} (A : Type ℓ) : Type ℓ where
  pub count : ℕ
  pub a_size : ℕ
  pub tail : ℕ
  pub head : ℕ
  pub queue : Buffer A

module _ {ℓ} {A : Type ℓ} where
  abbrev pub update : (ℕ → Option A) → ℕ → Option A → ℕ → Option A
  update f i v j = if i == j then v else f j

  -- `a[i] = v` and `a[i]`
  abbrev pub store : Buffer A → ℕ → Option A → Outcome (Buffer A)
  store a i v =
      if ltb i a.size then done (record { size = a.size; cell = update a.cell i v }) else fault

  abbrev pub load : Buffer A → ℕ → Outcome (Option A)
  load a i = if ltb i a.size then done (a.cell i) else fault

  -- `new T[n]`
  abbrev pub new_array : ℕ → Buffer A
  new_array n = record { size = n; cell = λ _. none }

  -- The constructor.
  pub new : HiveQueueC A
  new = record {
    count = 0;
    a_size = hq_init_size;
    tail = 0;
    head = 0;
    queue = new_array hq_init_size;
  }

  -- `while (i < this->aSize) { temp[j] = this->queue[i]; i++; j++; }`, with the final `j`.
  pub copy_above : ℕ → Buffer A → ℕ → ℕ → ℕ → Buffer A → Outcome (ℕ × Buffer A)
  copy_above zero old limit i j temp = exhausted
  copy_above (suc fuel) old limit i j temp =
      let next = λ (t : Buffer A). copy_above fuel old limit (u32 (i + 1)) (u32 (j + 1)) t in
      if ltb i limit then (load old i >>= λ v. store temp j v >>= next) else done (j, temp)

  -- `while (i != this->tail) { temp[j] = this->queue[i]; i++; j++; }`
  pub copy_below : ℕ → Buffer A → ℕ → ℕ → ℕ → Buffer A → Outcome (ℕ × Buffer A)
  copy_below zero old limit i j temp = exhausted
  copy_below (suc fuel) old limit i j temp =
      let next = λ (t : Buffer A). copy_below fuel old limit (u32 (i + 1)) (u32 (j + 1)) t in
      if i == limit then done (j, temp) else (load old i >>= λ v. store temp j v >>= next)

  -- The part of `grow` behind the size test: both loops, and the new fields.
  pub relocate : HiveQueueC A → ℕ → Outcome (HiveQueueC A)
  relocate q new_size =
      copy_above (suc q.a_size) q.queue q.a_size q.head 0 (new_array new_size) >>= λ above.
      (if leb q.tail q.head
        then copy_below (suc q.tail) q.queue q.tail 0 above.0 above.1
        else done above)
      >>= λ copied. done (record {
        count = q.count;
        a_size = new_size;
        tail = copied.0;
        head = 0;
        queue = copied.1;
      })

  pub grow : HiveQueueC A → ℕ → Outcome (Bool × HiveQueueC A)
  grow q new_size =
      if leb new_size q.a_size
      then done (false, q)
      else relocate q new_size >>= λ grown. done (true, grown)

  -- The branch of `push` for an empty queue.
  pub push_first : HiveQueueC A → A → Outcome (Bool × HiveQueueC A)
  push_first q msg = store q.queue 0 (some msg) >>= λ a.
      done (true, record q { tail = 1; count = 1; head = 0; queue = a })

  -- The branch of `push` for a queue that has room.
  pub push_room : HiveQueueC A → A → Outcome (Bool × HiveQueueC A)
  push_room q msg = store q.queue q.tail (some msg) >>= λ a.
      let tail' = u32 (q.tail + 1) in
      done (
        true,
        record q {
          queue = a;
          tail = if leb q.a_size tail' then 0 else tail';
          count = u32 (q.count + 1);
        },
      )

  -- `push` calls itself after growing. The result of the inner call is dropped, as in the source.
  pub push_fuel : ℕ → HiveQueueC A → A → Outcome (Bool × HiveQueueC A)
  push_fuel zero q msg = exhausted
  push_fuel (suc fuel) q msg =
      if ltb q.count 1
      then push_first q msg
      else if ltb q.count q.a_size
      then push_room q msg
      else grow q (u32 (q.a_size + hq_init_size)) >>= λ r. elim r.0 [
        | true ↦ push_fuel fuel r.1 msg >>= λ s. done (true, s.1)
        | false ↦ done (false, r.1)
      ]

  pub push : HiveQueueC A → A → Outcome (Bool × HiveQueueC A)
  push q msg = push_fuel 2 q msg

  -- `count--` runs only at a positive count; `aSize - 1` is of an `aSize` of at least 50.
  pub remove : HiveQueueC A → Bool × HiveQueueC A
  remove q =
      if ltb 0 q.count
      then (
        true,
        record q {
          head = if ltb q.head (q.a_size - 1) then q.head + 1 else 0;
          count = q.count - 1;
        },
      )
      else (false, q)

  -- `none` is the answer false; else the message that goes out through the reference.
  pub peek : HiveQueueC A → Outcome (Option A)
  peek q =
      if ltb q.count 1
      then done none
      else load q.queue q.head >>= λ v. elim v [ some m ↦ done (some m) | none ↦ fault ]

  -- `pop` answers what `remove` answers: the message with it, or `none` for false.
  pub pop : HiveQueueC A → Outcome (Option A × HiveQueueC A)
  pop q = peek q >>= λ r. elim r [
    | some m ↦ let (removed, q') = remove q in done (if removed then some m else none, q')
    | none ↦ done (none, q)
  ]

  pub size : HiveQueueC A → ℕ
  size q = q.count
