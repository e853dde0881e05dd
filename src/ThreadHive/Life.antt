-- ===== src/ThreadHive/Life.antt =====
-- A thread of `ThreadHive<T>` from `addThread` to the last destructor.
use mathlib.Core.Path.{subst}
use operation_front_line.Common.{
  ℕ, suc, ◌+◌, ◌<◌, ◌≡◌, refl, ap, sym, ◌∙◌, Bool, Option, none, some, List, [], ◌∷◌, ◌++◌, u32_mod,
  arith, Outcome, done, ◌>>=◌,
}
use operation_front_line.HiveQueueC.{HiveQueueC}
use operation_front_line.ThreadHive.{
  ThreadHandle, Registry, update, new_handle, set_up, add_thread, started, spawn_thread, ended,
  finish_thread,
}
use operation_front_line.ThreadHive.Destructor.{destroy}
use operation_front_line.ThreadHive.Chain.{Lists, Lists-inside, update-at, deref_lem, write_lem}
use operation_front_line.ThreadHive.Add.{Added, add_thread-Added}
use operation_front_line.ThreadHive.Destroy.{Departed, Shared, destroy-Departed}

module _ {A : Type 0} (m : ℕ) (ps : List ℕ) where
  -- `result` is a registry of the same list, with the handle at `m` as it says.
  pub record Updated (h : ThreadHandle A) (result : Outcome (Registry A)) : Type 0 where
    pub next : Registry A
    pub returns : result ≡ done next
    pub lists : Lists next ps
    pub stored : next.handles m ≡ some h

  module _ (r : Registry A) (h : ThreadHandle A) (at : r.handles m ≡ some h) (l : Lists r ps) where
    -- A thread that was started runs and has not finished.
    pub spawn_thread-Updated :
        (thread : ℕ) → Updated (started thread h) (spawn_thread r (some m) thread)
    unfolding spawn_thread
    spawn_thread-Updated thread = record {
      next = record r { handles = update (r.handles) m (some (started thread h)) };
      returns = rw (write_lem (r.handles) m h (started thread) at) refl;
      lists = Lists-inside r ps m h (started thread h) at refl l;
      stored = update-at (r.handles) m m _ refl;
    }

    pub finish_thread-Updated :
        (thread : ℕ) (result : Bool)
        → h.hive_thread ≡ some thread
        → Updated (ended result h) (finish_thread r (some m) result)
    unfolding finish_thread
    finish_thread-Updated thread result e = record {
      next = record r { handles = update (r.handles) m (some (ended result h)) };
      returns =
          rw (deref_lem (r.handles) m h at, e, write_lem (r.handles) m h (ended result) at) refl;
      lists = Lists-inside r ps m h (ended result h) at refl l;
      stored = update-at (r.handles) m m _ refl;
    }

module _ {A : Type 0} (r : Registry A) (address memory : ℕ) (queue : HiveQueueC A)
    (thread_name : List ℕ) (call_back parameters : Option ℕ) (thread : ℕ) (result : Bool) where
  -- `addThread` and `spawnThread`, and the thread to the end of `operator()`.
  abbrev pub threaded : Outcome (Registry A)
  threaded = add_thread r none address memory queue thread_name call_back parameters >>= (λ added.
      spawn_thread added.2 (some address) thread
      >>= (λ spawned. finish_thread spawned (some address) result))

  -- The destructor of the thread's object, and that of the object that started it.
  abbrev pub life : Outcome (Registry A)
  life = threaded >>= (λ r'. destroy r' (some address)) >>= (λ r'. destroy r' (some address))

  abbrev whole : ThreadHandle A
  whole =
      ended result
        (started thread (set_up queue call_back parameters (new_handle memory thread_name)))

  module _ (ps : List ℕ) (free : r.handles address ≡ none) (l : Lists r ps) where
    two_shares : memory + 2 < u32_mod → whole.shares ≡ suc (suc memory)
    unfolding new_handle
    two_shares small = omega arith

    threaded-Updated : Updated address (ps ++ (address ∷ [])) whole threaded
    threaded-Updated = record {
      next = finished.next;
      returns =
          ap
            (λ o. o >>= (λ added.
              spawn_thread added.2 (some address) thread
              >>= (λ spawned. finish_thread spawned (some address) result)))
            (added.returns)
          ∙ ap (λ o. o >>= (λ spawned. finish_thread spawned (some address) result))
              (spawned.returns)
          ∙ finished.returns;
      lists = finished.lists;
      stored = finished.stored;
    }
      where
        ready : ThreadHandle A
        ready = set_up queue call_back parameters (new_handle memory thread_name)

        added :
            Added ps address ready
              (add_thread r none address memory queue thread_name call_back parameters)
        added = add_thread-Added r address memory queue thread_name call_back parameters ps free l

        spawned :
            Updated address
              (ps ++ (address ∷ []))
              (started thread ready)
              (spawn_thread (added.next) (some address) thread)
        spawned =
            spawn_thread-Updated address (ps ++ (address ∷ [])) (added.next) ready (added.made)
              (added.lists) thread

        finished :
            Updated address
              (ps ++ (address ∷ []))
              whole
              (finish_thread (spawned.next) (some address) result)
        finished =
            finish_thread-Updated address (ps ++ (address ∷ [])) (spawned.next)
              (started thread ready) (spawned.stored) (spawned.lists) thread result refl

    -- A thread is added to a registry that lists handles, at a free address, is started and finishes, and its two
    -- objects are destroyed, where the memory of the handle held less than 2 ^ 32 - 2 in place of `shares`. If it
    -- held 0, the registry lists the same handles in the same order as before and the thread's handle is freed; if
    -- it held more, the handle stays in the list behind the others, with that many shares.
    pub life-Departed : memory + 2 < u32_mod → Departed address memory ps [] life
    life-Departed small =
        subst (Departed address memory ps [])
          (sym (
            ap (λ o. o >>= (λ r'. destroy r' (some address)) >>= (λ r'. destroy r' (some address)))
              (whole_life.returns)
            ∙ ap (λ o. o >>= (λ r'. destroy r' (some address))) (shared.returns)))
          (destroy-Departed (shared.next) address ps [] (shared.handle) (shared.kept) (shared.lists)
            memory (shared.fewer) (omega arith))
      where
        whole_life : Updated address (ps ++ (address ∷ [])) whole threaded
        whole_life = threaded-Updated

        shared :
            Shared address
              (suc memory)
              (ps ++ (address ∷ []))
              (destroy (whole_life.next) (some address))
        shared =
            destroy-Departed (whole_life.next) address ps [] whole (whole_life.stored)
              (whole_life.lists) (suc memory) (two_shares small) (omega arith)
