-- ===== src/ThreadHive.antt =====
-- OPFL/ThreadHive.h, `ThreadHandle<T>` and `ThreadHive<T>`: the linked list of the threads' handles. `handles`
-- is the memory that they live in, by address, `none` where no handle lives. A read or write through a null or
-- freed pointer is a fault. What `new` and the system answer is an argument: an address, a thread. The
-- static members are the registry; each call that changes the list runs under `hiveAccess`.
pub mod Destructor
pub mod Chain
pub mod Find
pub mod Add
pub mod Leave
pub mod Unlink
pub mod Destroy
pub mod Life
mod Tests
use operation_front_line.Common.{
  ℕ, zero, suc, ◌+◌, ◌-◌, Bool, true, false, Option, none, some, List, [], ◌∷◌, ltb, ◌==◌, ◌&&◌,
  if◌then◌else◌, u32, sub32, Outcome, done, fault, exhausted, ◌>>=◌,
}
use operation_front_line.HiveQueueC.{HiveQueueC}

pub record ThreadHandle {ℓ} (A : Type ℓ) : Type ℓ where
  pub shares : ℕ
  pub msg_queue : Option (HiveQueueC A)
  pub call_back : Option ℕ
  pub hive_thread : Option ℕ
  pub parameters : Option ℕ
  pub thread_name : List ℕ
  pub finished : Bool
  pub success : Bool
  pub running : Bool
  pub next : Option ℕ

-- The static members of `ThreadHive`.
pub record Registry {ℓ} (A : Type ℓ) : Type ℓ where
  pub thread_count : ℕ
  pub head : Option ℕ
  pub tail : Option ℕ
  pub handles : ℕ → Option (ThreadHandle A)

-- `==` of strings.
abbrev pub same_text : List ℕ → List ℕ → Bool
same_text [] [] = true
same_text [] (d ∷ t) = false
same_text (c ∷ s) [] = false
same_text (c ∷ s) (d ∷ t) = (c == d) && same_text s t

abbrev pub same_pointer : Option ℕ → Option ℕ → Bool
same_pointer none none = true
same_pointer none (some q) = false
same_pointer (some p) none = false
same_pointer (some p) (some q) = p == q

module _ {ℓ} {A : Type ℓ} where
  abbrev pub update :
      (ℕ → Option (ThreadHandle A)) → ℕ → Option (ThreadHandle A) → ℕ → Option (ThreadHandle A)
  update handles p v i = if p == i then v else handles i

  -- The handle that a pointer leads to.
  abbrev pub deref : (ℕ → Option (ThreadHandle A)) → Option ℕ → Outcome (ThreadHandle A)
  deref handles none = fault
  deref handles (some p) = elim (handles p) [ some h ↦ done h | none ↦ fault ]

  -- A write to the handle that a pointer leads to.
  abbrev pub write :
      (ℕ → Option (ThreadHandle A))
      → Option ℕ
      → (ThreadHandle A → ThreadHandle A)
      → Outcome (ℕ → Option (ThreadHandle A))
  write handles none f = fault
  write handles (some p) f = elim (handles p) [
    | some h ↦ done (update handles p (some (f h)))
    | none ↦ fault
  ]

  -- `ThreadHandle(threadName)`, which leaves `shares` as the memory was.
  pub new_handle : ℕ → List ℕ → ThreadHandle A
  new_handle memory thread_name = record {
    shares = memory;
    msg_queue = none;
    call_back = none;
    hive_thread = none;
    parameters = none;
    thread_name = thread_name;
    finished = false;
    success = false;
    running = false;
    next = none;
  }

  abbrev pub set_next : Option ℕ → ThreadHandle A → ThreadHandle A
  set_next p h = record h { next = p }

  abbrev pub push_behind :
      Registry A → ℕ → Option ℕ → (ℕ → Option (ThreadHandle A)) → Outcome (Registry A)
  push_behind r address none handles = done (record {
    thread_count = r.thread_count + 1;
    head = some address;
    tail = some address;
    handles = handles;
  })
  push_behind r address (some last) handles =
      write handles (some last) (set_next (some address)) >>= (λ linked. done (record {
        thread_count = r.thread_count + 1;
        head = r.head;
        tail = some address;
        handles = linked;
      }))

  -- `push`, of a new handle at `address`.
  pub push : Registry A → ℕ → ℕ → List ℕ → Outcome (Registry A)
  push r address memory thread_name =
      push_behind r address (r.tail)
        (update (r.handles) address (some (new_handle memory thread_name)))

  -- The fields that `addThread` sets.
  abbrev pub set_up : HiveQueueC A → Option ℕ → Option ℕ → ThreadHandle A → ThreadHandle A
  set_up queue call_back parameters h = record h {
    call_back = call_back;
    parameters = parameters;
    msg_queue = some queue;
    shares = u32 (h.shares + 1);
  }

  -- `addThread` of an object whose `myThreadHandle` is `mine`: the answer, and `myThreadHandle` after it.
  pub add_thread :
      Registry A
      → Option ℕ
      → ℕ
      → ℕ
      → HiveQueueC A
      → List ℕ
      → Option ℕ
      → Option ℕ
      → Outcome (Bool × Option ℕ × Registry A)
  add_thread r (some p) address memory queue thread_name call_back parameters =
      done (false, some p, r)
  add_thread r none address memory queue thread_name call_back parameters =
      push r address memory thread_name >>= (λ pushed.
        write (pushed.handles) (some address) (set_up queue call_back parameters)
        >>= (λ handles. done (true, some address, record pushed { handles = handles })))

  -- `spawnThread`, of a thread object at `thread`.
  abbrev pub started : ℕ → ThreadHandle A → ThreadHandle A
  started thread h = record h {
    shares = u32 (h.shares + 1);
    running = true;
    finished = false;
    success = false;
    hive_thread = some thread;
  }

  pub spawn_thread : Registry A → Option ℕ → ℕ → Outcome (Registry A)
  spawn_thread r mine thread =
      write (r.handles) mine (started thread) >>= (λ handles. done (record r { handles = handles }))

  -- The end of `operator()`, with what the callback answered. The thread is detached and its object freed.
  abbrev pub ended : Bool → ThreadHandle A → ThreadHandle A
  ended result h = record h {
    finished = true;
    success = result;
    running = false;
    hive_thread = none;
  }

  abbrev pub detach : Option ℕ → Outcome (Registry A) → Outcome (Registry A)
  detach none go_on = fault
  detach (some thread) go_on = go_on

  pub finish_thread : Registry A → Option ℕ → Bool → Outcome (Registry A)
  finish_thread r mine result = deref (r.handles) mine >>= (λ h. detach (h.hive_thread) (
      write (r.handles) mine (ended result) >>= (λ handles. done (record r { handles = handles }))))

  -- `isFinished`, `isSuccess` and `isRunning`.
  pub is_finished : Registry A → Option ℕ → Outcome Bool
  is_finished r th = deref (r.handles) th >>= (λ h. done (h.finished))

  pub is_success : Registry A → Option ℕ → Outcome Bool
  is_success r th = deref (r.handles) th >>= (λ h. done (h.success))

  pub is_running : Registry A → Option ℕ → Outcome Bool
  is_running r th = deref (r.handles) th >>= (λ h. done (h.running))

  -- The loop of `getThreadHandle` at `current`. It ends at a handle of the name, or at the null behind the last.
  pub find_handle : ℕ → (ℕ → Option (ThreadHandle A)) → List ℕ → Option ℕ → Outcome (Option ℕ)
  find_handle zero handles thread_name current = exhausted
  find_handle (suc fuel) handles thread_name none = done none
  find_handle (suc fuel) handles thread_name (some p) = deref handles (some p) >>= (λ h.
      elim (same_text thread_name (h.thread_name)) [
        | true ↦ done (some p)
        | false ↦ find_handle fuel handles thread_name (h.next)
      ])

  pub get_thread_handle : Registry A → List ℕ → Outcome (Option ℕ)
  get_thread_handle r thread_name =
      find_handle (suc (r.thread_count)) (r.handles) thread_name (r.head)
