-- ===== src/ThreadHive/Unlink.antt =====
-- How `~ThreadHive<T>` takes a handle out of the list.
use mathlib.Core.List.{append-nil}
use operation_front_line.Common.{
  ℕ, suc, ◌≡◌, ◌≢◌, refl, ap, sym, ◌∙◌, Option, none, some, List, [], ◌∷◌, ◌++◌, ne→==, eq→==,
  if◌then◌else◌, length-append, arith, Outcome, done, ◌>>=◌,
}
use operation_front_line.ThreadHive.{ThreadHandle, Registry, update, set_next, same_pointer}
use operation_front_line.ThreadHive.Destructor.{
  find_mine, unlink, unlink_at, unlink_behind, tail_after, free_handle,
}
use operation_front_line.ThreadHive.Chain.{
  last, last-NotIn, NotIn, Distinct, Linked, Lists, update-at, update-off, deref_lem, write_lem,
  Linked_outside,
}
use operation_front_line.ThreadHive.Leave.{
  NotIn-front, NotIn-back, Distinct-middle, length_middle, Found, find_mine-Found,
}

last-back : (ps : List ℕ) (b : ℕ) (qs : List ℕ) → last (ps ++ b ∷ qs) ≡ last (b ∷ qs)
last-back [] b qs = refl
last-back (a ∷ []) b qs = refl
last-back (a ∷ a' ∷ ps) b qs = last-back (a' ∷ ps) b qs

-- The tail after it, where the handle is not the first.
tail_moved : (m before : ℕ) (tail : Option ℕ) → Option ℕ
tail_moved m before tail = if same_pointer tail (some m) then some before else tail

tail_same :
    (m before b : ℕ) (qs : List ℕ)
    → NotIn m (b ∷ qs)
    → tail_moved m before (last (b ∷ qs)) ≡ last (b ∷ qs)
unfolding tail_moved
tail_same m before b [] (ne, n) = rw (ne→== {a = b} {b = m} (λ e. ne (sym e))) refl
tail_same m before b (b' ∷ qs) (ne, n) = tail_same m before b' qs n

tail_moved-last :
    (m before : ℕ) (tail : Option ℕ) (ps qs : List ℕ)
    → tail ≡ last (ps ++ m ∷ qs)
    → last ps ≡ some before
    → NotIn m qs
    → tail_moved m before tail ≡ last (ps ++ qs)
unfolding tail_moved
tail_moved-last m before tail ps [] e at n =
    ap (tail_moved m before) (e ∙ last-back ps m [])
    ∙ rw (eq→== {a = m} {b = m} refl) (sym at ∙ ap last (sym (append-nil ps)))
tail_moved-last m before tail ps (b ∷ qs) e at n =
    ap (tail_moved m before) (e ∙ last-back ps m (b ∷ qs))
    ∙ tail_same m before b qs n
    ∙ sym (last-back ps b qs)

-- `result` is the registry without the handle at `m`, whose memory is free.
pub record Left {A : Type 0} (m : ℕ) (ps : List ℕ) (result : Outcome (Registry A)) : Type 0 where
  pub next : Registry A
  pub returns : result ≡ done next
  pub lists : Lists next ps
  pub freed : next.handles m ≡ none

module _ {A : Type 0} (m : ℕ) where
  abbrev pub freeing : Outcome (Registry A) → Outcome (Registry A)
  freeing o = o >>= (λ r. done (free_handle m r))

  unlink-first :
      (qs : List ℕ) (r : Registry A) → Lists r (m ∷ qs) → Left m qs (freeing (unlink r m))
  unlink-first qs r l = first (l.linked) (l.distinct)
    where
      tails :
          (k : Option ℕ) (qs : List ℕ) (handles : ℕ → Option (ThreadHandle A))
          → Linked handles k qs
          → tail_after k (last (m ∷ qs)) ≡ last qs
      tails k [] handles e = rw e refl
      tails k (b ∷ qs) handles (h, e, at, l) = rw e refl

      first :
          Linked (r.handles) (r.head) (m ∷ qs)
          → Distinct (m ∷ qs)
          → Left m qs (freeing (unlink r m))
      first (k, e, at, link) (n, d) =
          let cut = update (r.handles) m (some (set_next none k)) in
          record {
            next = free_handle m (record r { head = k.next; handles = cut });
            returns =
                rw
                  (
                    e,
                    eq→== {a = m} {b = m} refl,
                    deref_lem (r.handles) m k at,
                    write_lem (r.handles) m k (set_next none) at,
                  )
                  refl;
            lists = record {
              counted = omega (arith, l.counted);
              linked =
                  Linked_outside qs cut (k.next) m none n
                    (Linked_outside qs (r.handles) (k.next) m (some (set_next none k)) n link);
              distinct = d;
              tail_at = ap (tail_after (k.next)) (l.tail_at) ∙ tails (k.next) qs (r.handles) link;
            };
            freed = update-at cut m m none refl;
          }

  module _ (a : ℕ) (ps qs : List ℕ) (r : Registry A) (l : Lists r (a ∷ ps ++ m ∷ qs))
      (h : ThreadHandle A) (e : r.head ≡ some a) (at : r.handles a ≡ some h)
      (link : Linked (r.handles) (h.next) (ps ++ m ∷ qs)) where
    found :
        Found
          (r.handles)
          (r.head)
          (a ∷ ps)
          m
          qs
          (find_mine (suc (r.thread_count)) (r.handles) m (some a) (h.next))
    found =
        find_mine-Found a ps m qs (suc (r.thread_count)) (r.handles) (r.head) h
          (omega (arith, l.counted, length-append ps (m ∷ qs))) (l.distinct) e at link

    away : NotIn m (a ∷ ps ++ qs)
    away = (Distinct-middle (a ∷ ps) m qs (l.distinct)).0

    apart : m ≢ found.before
    apart =
        last-NotIn m (found.before) (a ∷ ps) (NotIn-front m (a ∷ ps) qs away) (found.last_before)

    abbrev bridged : ℕ → Option (ThreadHandle A)
    bridged =
        update (r.handles) (found.before)
          (some (set_next (found.mine_handle.next) (found.before_handle)))

    abbrev cut : ℕ → Option (ThreadHandle A)
    cut = update bridged m (some (set_next none (found.mine_handle)))

    abbrev left_with : Registry A
    left_with = record r { tail = tail_moved m (found.before) (r.tail); handles = cut }

    mine_bridged : bridged m ≡ some (found.mine_handle)
    mine_bridged = update-off (r.handles) (found.before) m _ (λ e'. apart (sym e')) ∙ found.mine_at

    unlink_behind-eq : unlink_behind r (some (found.before), some m) ≡ done left_with
    unfolding tail_moved
    unlink_behind-eq =
        rw
          (
            unlink_behind,
            deref_lem (r.handles) (found.before) (found.before_handle) (found.before_at),
            found.before_next,
            deref_lem (r.handles) m (found.mine_handle) (found.mine_at),
            write_lem (r.handles) (found.before) (found.before_handle)
                (set_next (found.mine_handle.next)) (found.before_at),
            write_lem bridged m (found.mine_handle) (set_next none) mine_bridged,
          )
          refl

    unlink-eq : unlink r m ≡ done left_with
    unlink-eq =
        ap (unlink_at r m) e
        ∙ rw
            (unlink_at, ne→== {a = a} {b = m} (λ e'. away.0 (sym e')), deref_lem (r.handles) a h at)
            refl
        ∙ ap (λ o. o >>= unlink_behind r) (found.returns)
        ∙ unlink_behind-eq

    unlink-later : Left m (a ∷ ps ++ qs) (freeing (unlink r m))
    unlink-later = record {
      next = free_handle m left_with;
      returns = ap freeing unlink-eq;
      lists = record {
        counted = omega (arith, l.counted, length_middle (a ∷ ps) m qs);
        linked =
            Linked_outside (a ∷ ps ++ qs) cut (r.head) m none away
              (Linked_outside (a ∷ ps ++ qs) bridged (r.head) m _ away (found.linked));
        distinct = (Distinct-middle (a ∷ ps) m qs (l.distinct)).1;
        tail_at =
            ap (λ x. tail_after x (left_with.tail)) e
            ∙ tail_moved-last m (found.before) (r.tail) (a ∷ ps) qs (l.tail_at) (found.last_before)
                (NotIn-back m (a ∷ ps) qs away);
      };
      freed = update-at cut m m none refl;
    }

  pub unlink-Left :
      (ps qs : List ℕ) (r : Registry A)
      → Lists r (ps ++ m ∷ qs)
      → Left m (ps ++ qs) (freeing (unlink r m))
  unlink-Left [] qs r l = unlink-first qs r l
  unlink-Left (a ∷ ps) qs r l = later (l.linked)
    where
      later :
          Linked (r.handles) (r.head) (a ∷ ps ++ m ∷ qs)
          → Left m (a ∷ ps ++ qs) (freeing (unlink r m))
      later (h, e, at, link) = unlink-later a ps qs r l h e at link
