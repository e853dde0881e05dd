-- ===== src/ThreadHive/Add.antt =====
-- `ThreadHive<T>::addThread` on a list of handles.
use operation_front_line.Common.{
  ℕ, ◌+◌, ◌≡◌, ◌≢◌, refl, ap, sym, ◌∙◌, Bool, true, Option, none, some, List, [], ◌∷◌, ◌++◌,
  length-append, arith, Outcome, done, ◌>>=◌,
}
use mathlib.Core.Option.{some-injective}
use operation_front_line.HiveQueueC.{HiveQueueC}
use operation_front_line.ThreadHive.{
  ThreadHandle, Registry, update, set_next, new_handle, push_behind, push, set_up, add_thread,
}
use operation_front_line.ThreadHive.Chain.{
  last, last-NotIn, NotIn, Distinct, Linked, Lists, update-at, update-off, write_lem,
  Linked_outside, Linked_inside,
}

last-append : (ps : List ℕ) (p : ℕ) → last (ps ++ (p ∷ [])) ≡ some p
last-append [] p = refl
last-append (a ∷ []) p = refl
last-append (a ∷ b ∷ ps) p = last-append (b ∷ ps) p

NotIn-append : (q p : ℕ) (ps : List ℕ) → NotIn q ps → q ≢ p → NotIn q (ps ++ (p ∷ []))
NotIn-append q p [] h ne = (ne, tt)
NotIn-append q p (a ∷ ps) (ne', h) ne = (ne', NotIn-append q p ps h ne)

Distinct-append : (ps : List ℕ) (p : ℕ) → Distinct ps → NotIn p ps → Distinct (ps ++ (p ∷ []))
Distinct-append [] p d h = (tt, tt)
Distinct-append (a ∷ ps) p (n, d) (ne, h) =
    (NotIn-append a p ps n (λ e. ne (sym e)), Distinct-append ps p d h)

module _ {A : Type 0} where
  -- No handle of the list lives at a free address.
  Linked-NotIn :
      (ps : List ℕ) (handles : ℕ → Option (ThreadHandle A)) (q : Option ℕ) (p : ℕ)
      → handles p ≡ none
      → Linked handles q ps
      → NotIn p ps
  Linked-NotIn [] handles q p free l = tt
  Linked-NotIn (a ∷ ps) handles q p free (h, e, at, l) =
      ((λ e'. cc (free, at, e')), Linked-NotIn ps handles (h.next) p free l)

  -- The last handle of a list.
  pub record Ends (handles : ℕ → Option (ThreadHandle A)) (ps : List ℕ) : Type 0 where
    pub address_of : ℕ
    pub handle_of : ThreadHandle A
    pub last_at : last ps ≡ some address_of
    pub stored : handles address_of ≡ some handle_of

  Linked-Ends :
      (a : ℕ) (ps : List ℕ) (handles : ℕ → Option (ThreadHandle A)) (q : Option ℕ)
      → Linked handles q (a ∷ ps)
      → Ends handles (a ∷ ps)
  Linked-Ends a [] handles q (h, e, at, l) = record {
    address_of = a;
    handle_of = h;
    last_at = refl;
    stored = at;
  }
  Linked-Ends a (b ∷ ps) handles q (h, e, at, l) =
      let r = Linked-Ends b ps handles (h.next) l in
      record {
        address_of = r.address_of;
        handle_of = r.handle_of;
        last_at = r.last_at;
        stored = r.stored;
      }

  -- A handle behind the last.
  Linked-append :
      (a : ℕ) (ps : List ℕ) (handles : ℕ → Option (ThreadHandle A)) (q : Option ℕ) (l p : ℕ)
      (k n : ThreadHandle A)
      → last (a ∷ ps) ≡ some l
      → handles l ≡ some k
      → handles p ≡ some n
      → n.next ≡ none
      → NotIn p (a ∷ ps)
      → Distinct (a ∷ ps)
      → Linked handles q (a ∷ ps)
      → Linked (update handles l (some (set_next (some p) k))) q (a ∷ ps ++ (p ∷ []))
  Linked-append a [] handles q l p k n la at pat end (ne, ni) d (h, e, at', link) =
      let same : l ≡ a = some-injective l a (sym la) in
      (
        set_next (some p) k,
        e,
        update-at handles l a _ (sym same),
        (n, refl, update-off handles l p _ (λ e'. ne (sym e' ∙ same)) ∙ pat, end),
      )
  Linked-append a (b ∷ ps) handles q l p k n la at pat end (ne, ni) (na, d) (h, e, at', link) = (
    h,
    e,
    update-off handles l a _ (λ e'. last-NotIn a l (b ∷ ps) na la (sym e')) ∙ at',
    Linked-append b ps handles (h.next) l p k n la at pat end ni d link,
  )

-- The registry after `addThread` lists the handle at `address` behind the others, with the fields that were
-- asked for and one share more than what its memory held.
pub record Added {A : Type 0} (ps : List ℕ) (address : ℕ) (h : ThreadHandle A)
    (result : Outcome (Bool × Option ℕ × Registry A)) : Type 0 where
  pub next : Registry A
  pub returns : result ≡ done (true, some address, next)
  pub lists : Lists next (ps ++ (address ∷ []))
  pub made : next.handles address ≡ some h

module _ {A : Type 0} (r : Registry A) (address memory : ℕ) (queue : HiveQueueC A)
    (thread_name : List ℕ) (call_back parameters : Option ℕ) where
  abbrev fresh : ThreadHandle A
  fresh = new_handle memory thread_name

  abbrev ready : ThreadHandle A
  ready = set_up queue call_back parameters fresh

  abbrev with_fresh : ℕ → Option (ThreadHandle A)
  with_fresh = update (r.handles) address (some fresh)

  abbrev call : Outcome (Bool × Option ℕ × Registry A)
  call = add_thread r none address memory queue thread_name call_back parameters

  -- From the registry that `push` leaves on.
  from_pushed :
      (pushed : Registry A) (ps : List ℕ)
      → push r address memory thread_name ≡ done pushed
      → pushed.handles address ≡ some fresh
      → Lists pushed (ps ++ (address ∷ []))
      → Added ps address ready call
  unfolding add_thread
  from_pushed pushed ps e at l = record {
    next = record pushed { handles = update (pushed.handles) address (some ready) };
    returns =
        rw (e, write_lem (pushed.handles) address fresh (set_up queue call_back parameters) at)
          refl;
    lists = record {
      counted = l.counted;
      linked =
          Linked_inside (ps ++ (address ∷ [])) (pushed.handles) (pushed.head) address fresh ready at
            refl (l.linked);
      distinct = l.distinct;
      tail_at = l.tail_at;
    };
    made = update-at (pushed.handles) address address (some ready) refl;
  }

  add_first : Lists r [] → Added [] address ready call
  unfolding push new_handle
  add_first l =
      from_pushed
        (record {
          thread_count = r.thread_count + 1;
          head = some address;
          tail = some address;
          handles = with_fresh;
        })
        [] (ap (λ t. push_behind r address t with_fresh) (l.tail_at))
        (update-at (r.handles) address address _ refl)
        (record {
          counted = omega (arith, l.counted);
          linked = (fresh, refl, update-at (r.handles) address address _ refl, refl);
          distinct = (tt, tt);
          tail_at = refl;
        })

  add_behind :
      (a : ℕ) (ps : List ℕ)
      → r.handles address ≡ none
      → Lists r (a ∷ ps)
      → Added (a ∷ ps) address ready call
  unfolding push new_handle
  add_behind a ps free l =
      from_pushed
        (record {
          thread_count = r.thread_count + 1;
          head = r.head;
          tail = some address;
          handles = linked;
        })
        (a ∷ ps)
        (ap (λ t. push_behind r address t with_fresh) (l.tail_at ∙ end.last_at)
          ∙ ap
              (λ o. o >>= (λ handles. done (record {
                thread_count = r.thread_count + 1;
                head = r.head;
                tail = some address;
                handles = handles;
              })))
              (write_lem with_fresh (end.address_of) (end.handle_of) (set_next (some address))
                end_at))
        (update-off with_fresh (end.address_of) address _ (λ e. apart (sym e))
          ∙ update-at (r.handles) address address _ refl)
        (record {
          counted = omega (arith, l.counted, length-append (a ∷ ps) (address ∷ []));
          linked =
              Linked-append a ps with_fresh (r.head) (end.address_of) address (end.handle_of) fresh
                (end.last_at) end_at (update-at (r.handles) address address _ refl) refl away
                (l.distinct)
                (Linked_outside (a ∷ ps) (r.handles) (r.head) address (some fresh) away (l.linked));
          distinct = Distinct-append (a ∷ ps) address (l.distinct) away;
          tail_at = sym (last-append (a ∷ ps) address);
        })
    where
      end : Ends (r.handles) (a ∷ ps)
      end = Linked-Ends a ps (r.handles) (r.head) (l.linked)

      away : NotIn address (a ∷ ps)
      away = Linked-NotIn (a ∷ ps) (r.handles) (r.head) address free (l.linked)

      apart : address ≢ end.address_of
      apart = last-NotIn address (end.address_of) (a ∷ ps) away (end.last_at)

      end_at : with_fresh (end.address_of) ≡ some (end.handle_of)
      end_at = update-off (r.handles) address (end.address_of) _ apart ∙ end.stored

      linked : ℕ → Option (ThreadHandle A)
      linked = update with_fresh (end.address_of) (some (set_next (some address) (end.handle_of)))

  -- `addThread` of an object that has no thread yet, with a free address for the handle.
  pub add_thread-Added :
      (ps : List ℕ) → r.handles address ≡ none → Lists r ps → Added ps address ready call
  add_thread-Added [] free l = add_first l
  add_thread-Added (a ∷ ps) free l = add_behind a ps free l
