-- ===== src/ThreadHive/Destructor.antt =====
-- OPFL/ThreadHive.h, `~ThreadHive<T>`: an object gives up its share of its handle.
use operation_front_line.Common.{
  ℕ, zero, suc, ◌-◌, Option, none, some, ltb, if◌then◌else◌, sub32, Outcome, done, exhausted, ◌>>=◌,
}
use operation_front_line.ThreadHive.{
  ThreadHandle, Registry, same_pointer, update, deref, write, set_next,
}

-- The tail, null where the list is empty now.
abbrev pub tail_after : Option ℕ → Option ℕ → Option ℕ
tail_after none tail = none
tail_after (some h) tail = tail

module _ {ℓ} {A : Type ℓ} where
  -- The loop of the destructor: `temp` and `current` where `current` is the handle.
  unfoldable pub find_mine :
      ℕ → (ℕ → Option (ThreadHandle A)) → ℕ → Option ℕ → Option ℕ → Outcome (Option ℕ × Option ℕ)
  find_mine zero handles mine temp current = exhausted
  find_mine (suc fuel) handles mine temp current =
      let go_on = λ (t c : Option ℕ). find_mine fuel handles mine t c in
      if same_pointer (some mine) current
      then done (temp, current)
      else deref handles current >>= (λ c. deref handles temp >>= (λ t. go_on (t.next) (c.next)))

  -- The handle leaves the front of the list, or the middle or the end.
  abbrev pub unlink_head : Registry A → Option ℕ → Outcome (Registry A)
  unlink_head r current = deref (r.handles) current >>= (λ c.
      write (r.handles) current (set_next none)
      >>= (λ handles. done (record r { head = c.next; handles = handles })))

  abbrev pub unlink_behind : Registry A → Option ℕ × Option ℕ → Outcome (Registry A)
  unlink_behind r (temp, current) = deref (r.handles) temp >>= (λ t.
      deref (r.handles) (t.next) >>= (λ n.
        write (r.handles) temp (set_next (n.next)) >>= (λ handles.
          write handles current (set_next none) >>= (λ handles'. done (record r {
            tail = if same_pointer (r.tail) current then temp else r.tail;
            handles = handles';
          })))))

  abbrev pub unlink_at : Registry A → ℕ → Option ℕ → Outcome (Registry A)
  unlink_at r mine front =
      if same_pointer front (some mine)
      then unlink_head r front
      else deref (r.handles) front >>= (λ first.
        find_mine (suc (r.thread_count)) (r.handles) mine front (first.next) >>= unlink_behind r)

  abbrev pub unlink : Registry A → ℕ → Outcome (Registry A)
  unlink r mine = unlink_at r mine (r.head)

  -- What follows it: the count, which is not 0 here, the tail of an empty list, and `delete`.
  abbrev pub free_handle : ℕ → Registry A → Registry A
  free_handle mine r = record {
    thread_count = r.thread_count - 1;
    head = r.head;
    tail = tail_after (r.head) (r.tail);
    handles = update (r.handles) mine none;
  }

  -- The destructor of an object whose `myThreadHandle` is `mine`.
  unfoldable pub destroy : Registry A → Option ℕ → Outcome (Registry A)
  destroy r none = done r
  destroy r (some mine) = deref (r.handles) (some mine) >>= (λ h.
      write (r.handles) (some mine) (λ h'. record h' { shares = sub32 (h'.shares) 1 })
      >>= (λ handles.
          if ltb (sub32 (h.shares) 1) 1
          then unlink (record r { handles = handles }) mine >>= (λ r'. done (free_handle mine r'))
          else done (record r { handles = handles })))
