-- ===== src/ConnectionPool/System.antt =====
-- The pool and the workers that share it: which connections are out, who may hold one, and when
-- `borrow` fails.
use mathlib.Core.Path.{subst}
use operation_front_line.Common.{
  ℕ, ◌+◌, ◌-◌, ◌≡◌, ◌≢◌, ◌≤◌, refl, ap, sym, Bool-cases, inl, inr, Option, none, some, List, [],
  ◌∷◌, ◌==◌, if◌then◌else◌, length, length-append, arith,
}
use operation_front_line.ConnectionPool.{
  ConnectionPool, Borrow, given, connection_impossible, connection_unavailable, count, use_count,
  set_insert, set_erase, find_abandoned, replace_abandoned, take_front, borrow, unborrow,
}
use operation_front_line.ConnectionPool.Counts.{
  count-append, same, count-set_insert, length-set_insert, count-set_erase, length-set_erase,
}

-- The pool, and how many `shared_ptr`s the workers hold to each connection.
pub record System : Type 0 where
  pub manager : ConnectionPool
  pub outside : ℕ → ℕ

abbrev pub more : (ℕ → ℕ) → ℕ → ℕ → ℕ
more outside c d = if d == c then outside d + 1 else outside d

abbrev pub fewer : (ℕ → ℕ) → ℕ → ℕ → ℕ
fewer outside c d = if d == c then outside d - 1 else outside d

-- Every connection is in the pool or out, once; and a worker holds only what is out.
pub record IsSound (s : System) : Type 0 where
  pub whole : length s.manager.pool + length s.manager.borrowed ≡ s.manager.pool_size
  pub once : (c : ℕ) → count c s.manager.pool + count c s.manager.borrowed ≤ 1
  pub held : (c : ℕ) → 1 ≤ s.outside c → count c s.manager.borrowed ≡ 1

-- `create` hands out an address that nothing else lives at.
abbrev pub Fresh : System → Option ℕ → Type 0
Fresh s created = (c : ℕ) → created ≡ some c → use_count s.outside s.manager c ≡ 0

-- What a call of `borrow` comes to.
pub data Answered (s : System) (created : Option ℕ) (r : Borrow × ConnectionPool) : Type 0 where
  hands :
      (c : ℕ) (p : ConnectionPool)
      → r ≡ (given c, p)
      → s.outside c ≡ 0
      → IsSound (record { manager = p; outside = more s.outside c })
      → Answered s created r
  cannot_create :
      r ≡ (connection_impossible, s.manager)
      → created ≡ none
      → s.manager.pool ≡ []
      → Answered s created r
  all_held :
      r ≡ (connection_unavailable, s.manager)
      → length s.manager.borrowed ≡ s.manager.pool_size
      → ((c : ℕ) → 1 ≤ count c s.manager.borrowed → 1 ≤ s.outside c)
      → Answered s created r

-- The search finds a connection of the list that the pool alone holds, if there is one.
data Searched (outside : ℕ → ℕ) (p : ConnectionPool) (xs : List ℕ) (r : Option ℕ) : Type 0 where
  found :
      (c : ℕ) → r ≡ some c → 1 ≤ count c xs → use_count outside p c ≡ 1 → Searched outside p xs r
  missed :
      r ≡ none → ((c : ℕ) → 1 ≤ count c xs → use_count outside p c ≢ 1) → Searched outside p xs r

module _ (outside : ℕ → ℕ) (p : ConnectionPool) where
  find_abandoned-Searched : (xs : List ℕ) → Searched outside p xs (find_abandoned outside p xs)
  unfolding find_abandoned
  find_abandoned-Searched [] = missed refl (λ c h. absurd (omega arith))
  find_abandoned-Searched (x ∷ xs) = elim (Bool-cases (use_count outside p x == 1)) [
    | inl e ↦ found x (rw e) (ground arith) (ground arith)
    | inr e ↦ elim (find_abandoned-Searched xs) [
      | found c e' h u ↦ found c (rw e e') (omega (arith, h)) u
      | missed e' none_in ↦ missed (rw e e') (λ c h. elim (Bool-cases (c == x)) [
        | inl same_one ↦ ground arith
        | inr other ↦ none_in c (ground arith)
      ])
    ]
  ]

-- A connection leaves the pool for a worker.
hand_out-IsSound :
    (s : System) (c : ℕ) (rest : List ℕ)
    → IsSound s
    → s.manager.pool ≡ c ∷ rest
    → (s.outside c ≡ 0)
      × IsSound (record {
        manager = record s.manager { pool = rest; borrowed = set_insert c s.manager.borrowed };
        outside = more s.outside c;
      })
hand_out-IsSound s c rest h e = (
  unheld,
  record {
    whole = omega (arith, h.whole, ap length e, length-set_insert c s.manager.borrowed out);
    once =
        λ d. omega (arith, h.once d, ap (count d) e, count-set_insert d c s.manager.borrowed out);
    held = λ d k.
        ground
          (arith, h.held d, count-set_insert d c s.manager.borrowed out, ap (count d) e, h.once d);
  },
)
  where
    here : 1 ≤ count c s.manager.pool
    here = ground (arith, ap (count c) e)

    out : count c s.manager.borrowed ≡ 0
    out = omega (arith, h.once c, here)

    unheld : s.outside c ≡ 0
    unheld = ground (arith, h.held c, out)

-- A new connection takes the place of one that no worker holds any more.
replace-IsSound :
    (s : System) (old c : ℕ)
    → IsSound s
    → s.manager.pool ≡ []
    → 1 ≤ count old s.manager.borrowed
    → use_count s.outside s.manager old ≡ 1
    → use_count s.outside s.manager c ≡ 0
    → IsSound (record {
      manager = record s.manager { borrowed = set_insert c (set_erase old s.manager.borrowed) };
      outside = more s.outside c;
    })
replace-IsSound s old c h e here alone fresh = record {
  whole = omega (
    arith,
    h.whole,
    length-set_insert c rest unlisted,
    length-set_erase old s.manager.borrowed here,
  );
  once = λ d. ground (arith, h.once d, at d, left d, fresh);
  held = λ d k. ground (arith, h.held d, at d, left d, alone, fresh);
}
  where
    rest : List ℕ
    rest = set_erase old s.manager.borrowed

    left : (d : ℕ) → same d old + count d rest ≡ count d s.manager.borrowed
    left d = count-set_erase d old s.manager.borrowed here

    unlisted : count c rest ≡ 0
    unlisted = omega (arith, left c, fresh)

    at : (d : ℕ) → count d (set_insert c rest) ≡ same d c + count d rest
    at d = count-set_insert d c rest unlisted

data Ends (xs : List ℕ) : Type 0 where
  empty : xs ≡ [] → Ends xs
  front : (c : ℕ) (rest : List ℕ) → xs ≡ c ∷ rest → Ends xs

ends : (xs : List ℕ) → Ends xs
ends [] = empty refl
ends (c ∷ rest) = front c rest refl

replace_abandoned-Answered :
    (s : System) (created : Option ℕ)
    → IsSound s
    → Fresh s created
    → s.manager.pool ≡ []
    → Searched s.outside s.manager s.manager.borrowed
        (find_abandoned s.outside s.manager s.manager.borrowed)
    → Answered s created (replace_abandoned s.outside created s.manager)
unfolding replace_abandoned
replace_abandoned-Answered s created h fresh e (missed none_found busy) =
    all_held (rw (replace_abandoned, none_found)) (omega (arith, h.whole, ap length e))
      (λ c out. ground (arith, h.once c, busy c out, ap (count c) e))
replace_abandoned-Answered s none h fresh e (found old is here alone) =
    cannot_create (rw (replace_abandoned, is)) refl e
replace_abandoned-Answered s (some c) h fresh e (found old is here alone) =
    hands c (record s.manager { borrowed = set_insert c (set_erase old s.manager.borrowed) })
      (rw (replace_abandoned, is)) (omega (arith, fresh c refl))
      (replace-IsSound s old c h e here alone (fresh c refl))

borrow_empty :
    (outside : ℕ → ℕ) (created : Option ℕ) (p : ConnectionPool)
    → p.pool ≡ []
    → borrow outside created p ≡ replace_abandoned outside created p
unfolding borrow
borrow_empty outside created p e = ap (take_front outside created p) e

-- On a sound system, with `create` answering no live address, `borrow` either hands out a
-- connection that no worker holds and leaves a sound system; or it fails because the pool is
-- empty and `create` throws; or it fails because every connection of the pool is held by a
-- worker. Where it fails, the pool has not changed.
pub borrow-Answered :
    (s : System) (created : Option ℕ)
    → IsSound s
    → Fresh s created
    → Answered s created (borrow s.outside created s.manager)
unfolding borrow
borrow-Answered s created h fresh = elim (ends s.manager.pool) [
  | empty e ↦ subst (Answered s created) (sym (borrow_empty s.outside created s.manager e)) (
      replace_abandoned-Answered s created h fresh e
        (find_abandoned-Searched s.outside s.manager s.manager.borrowed))
  | front c rest e ↦
      let r = hand_out-IsSound s c rest h e in
      hands c (record s.manager { pool = rest; borrowed = set_insert c s.manager.borrowed }) (rw e)
        r.0 r.1
]

-- On a sound system, `unborrow` of a connection that its worker alone holds, and lets go of,
-- leaves a sound system.
pub unborrow-IsSound :
    (s : System) (c : ℕ)
    → IsSound s
    → s.outside c ≡ 1
    → IsSound (record { manager = unborrow c s.manager; outside = fewer s.outside c })
unfolding unborrow
unborrow-IsSound s c h one = record {
  whole = omega (
    arith,
    h.whole,
    length-append s.manager.pool (c ∷ []),
    length-set_erase c s.manager.borrowed out,
  );
  once = λ d. ground (
    arith,
    h.once d,
    count-append d s.manager.pool (c ∷ []),
    count-set_erase d c s.manager.borrowed out,
  );
  held = λ d k. ground (arith, h.held d, count-set_erase d c s.manager.borrowed out, one);
}
  where
    out : 1 ≤ count c s.manager.borrowed
    out = omega (arith, h.held c (omega arith))
