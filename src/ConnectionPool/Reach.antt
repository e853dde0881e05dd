-- ===== src/ConnectionPool/Reach.antt =====
-- Every system that the workers can reach from a new pool is sound.
use native.Mathlib.Decide.{dec_lt}
use operation_front_line.Common.{
  ℕ, zero, suc, ◌+◌, ◌≡◌, ◌⊎◌, ◌≤◌, ◌<◌, refl, Bool-cases, inl, inr, Option, none, some, List, [],
  ◌∷◌, ◌++◌, ◌==◌, length, length-append, arith,
}
use operation_front_line.ConnectionPool.{
  ConnectionPool, Borrow, given, connection_impossible, connection_unavailable, count, fill, new,
  borrow, unborrow,
}
use operation_front_line.ConnectionPool.Counts.{count-append}
use operation_front_line.ConnectionPool.System.{System, more, fewer, IsSound, Fresh}

-- No two calls of `create` hand out one address.
abbrev pub Distinct : (ℕ → Option ℕ) → Type 0
Distinct create = (i j c : ℕ) → create i ≡ some c → create j ≡ some c → i ≡ j

-- The connections that the constructor has so far.
record Filled (create : ℕ → Option ℕ) (pool : List ℕ) : Type 0 where
  once : (c : ℕ) → count c pool ≤ 1
  made : (i c : ℕ) → create i ≡ some c → 1 ≤ count c pool → i < length pool

created : (o : Option ℕ) → (o ≡ none) ⊎ ((c : ℕ) × (o ≡ some c))
created none = inl refl
created (some c) = inr (c, refl)

module _ (create : ℕ → Option ℕ) (distinct : Distinct create) where
  Filled-append :
      (pool : List ℕ) (c : ℕ)
      → Filled create pool
      → create (length pool) ≡ some c
      → Filled create (pool ++ (c ∷ []))
  Filled-append pool c f e = record {
    once = λ d. elim (Bool-cases (d == c)) [
      | inl same ↦ ground (arith, f.once d, count-append d pool (c ∷ []), unused)
      | inr other ↦ ground (arith, f.once d, count-append d pool (c ∷ []))
    ];
    made = λ i d made_d in_d. elim (dec_lt 0 (count d pool)) [
      | yes p ↦ omega (arith, f.made i d made_d p, length-append pool (c ∷ []))
      | no p ↦
          let is_c : d ≡ c = ground (arith, count-append d pool (c ∷ []), in_d) in
          omega (arith, length-append pool (c ∷ []), distinct i (length pool) d made_d (rw is_c e))
    ];
  }
    where
      unused : count c pool ≡ 0
      unused = ground (arith, f.made (length pool) c e)

  -- What the constructor's loop comes to.
  data Fills (missing : ℕ) (pool : List ℕ) (r : Option (List ℕ)) : Type 0 where
    filled :
        (full : List ℕ)
        → r ≡ some full
        → Filled create full
        → length full ≡ length pool + missing
        → Fills missing pool r
    stopped :
        (i : ℕ) → i < length pool + missing → create i ≡ none → r ≡ none → Fills missing pool r

  fill-Fills :
      (missing : ℕ) (pool : List ℕ)
      → Filled create pool
      → Fills missing pool (fill create missing pool)
  unfolding fill
  fill-Fills zero pool f = filled pool refl f (omega arith)
  fill-Fills (suc missing) pool f = elim (created (create (length pool))) [
    | inl e ↦ stopped (length pool) (omega arith) e (rw (fill, e))
    | inr (c, e) ↦ elim (fill-Fills missing (pool ++ (c ∷ [])) (Filled-append pool c f e)) [
      | filled full e' g n ↦
          filled full (rw (fill, e) e') g (omega (arith, n, length-append pool (c ∷ [])))
      | stopped i lt none_i e' ↦
          stopped i (omega (arith, lt, length-append pool (c ∷ []))) none_i (rw (fill, e) e')
    ]
  ]

-- What the constructor comes to: a pool of that many connections, with none out; or the exception of
-- a call of `create`.
pub data Built (pool_size : ℕ) (create : ℕ → Option ℕ) (r : Option ConnectionPool) : Type 0 where
  built :
      (p : ConnectionPool)
      → r ≡ some p
      → p.pool_size ≡ pool_size
      → p.borrowed ≡ []
      → IsSound (record { manager = p; outside = λ c. 0 })
      → Built pool_size create r
  threw : (i : ℕ) → i < pool_size → create i ≡ none → r ≡ none → Built pool_size create r

-- If `create` never repeats an address, the constructor makes a sound pool of the asked size with
-- nothing borrowed, or throws because one of that many calls of `create` throws.
pub new-Built :
    (pool_size : ℕ) (create : ℕ → Option ℕ)
    → Distinct create
    → Built pool_size create (new pool_size create)
unfolding new
new-Built pool_size create distinct =
    elim (fill-Fills create distinct pool_size []
      (record { once = λ c. omega arith; made = λ i c e h. absurd (omega arith) })) [
        | filled full e f n ↦
            built (record { pool_size = pool_size; pool = full; borrowed = [] }) (rw (new, e)) refl
              refl
              (record {
                whole = omega (arith, n);
                once = λ c. omega (arith, f.once c);
                held = λ c h. absurd (omega arith);
              })
        | stopped i lt none_i e ↦ threw i (omega arith) none_i (rw (new, e))
      ]

-- The worker that borrowed holds what it was given.
abbrev pub after : System → Borrow × ConnectionPool → System
after s (given c, p) = record { manager = p; outside = more s.outside c }
after s (connection_impossible, p) = record { manager = p; outside = s.outside }
after s (connection_unavailable, p) = record { manager = p; outside = s.outside }

-- The moves of the workers and of the pool.
pub data Reach (start : System) : System → Type 0 where
  here : Reach start start
  borrows :
      {s : System} (created : Option ℕ)
      → Reach start s
      → Fresh s created
      → Reach start (after s (borrow s.outside created s.manager))
  copies :
      {s : System} (c : ℕ)
      → Reach start s
      → 1 ≤ s.outside c
      → Reach start (record { manager = s.manager; outside = more s.outside c })
  drops :
      {s : System} (c : ℕ)
      → Reach start s
      → 1 ≤ s.outside c
      → Reach start (record { manager = s.manager; outside = fewer s.outside c })
  returns :
      {s : System} (c : ℕ)
      → Reach start s
      → s.outside c ≡ 1
      → Reach start (record { manager = unborrow c s.manager; outside = fewer s.outside c })
