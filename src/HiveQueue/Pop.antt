-- ===== src/HiveQueue/Pop.antt =====
-- `HiveQueue<T>`: `peek`, `remove` and `pop` of the first message, and the destructor, which frees every
-- node once.
use operation_front_line.Common.{
  ℕ, zero, suc, ◌+◌, ◌-◌, ◌<◌, ◌≡◌, ◌≢◌, refl, ap, sym, ◌∙◌, lt→ltb, Bool-cases, inl, inr, true,
  false, Option, none, some, List, [], ◌∷◌, ◌==◌, if◌then◌else◌, length, u32_mod, sub32, arith,
  Outcome, done, ◌>>=◌,
}
use mathlib.Core.Option.{some-injective}
use operation_front_line.HiveQueue.{
  peek_at, remove_from, tail_after, Node, HiveQueue, update, pop, remove, peek, free_all, destroy,
}
use operation_front_line.HiveQueue.Chain.{pointer, Placed, Holds, update-at, update-off, deref_lem}

-- `r` is the first message, with a queue that holds the others.
pub record Popped {ℓ} {A : Type ℓ} (x : A) (xs : List A) (r : Outcome (Option A × HiveQueue A))
    : Type ℓ where
  pub next : HiveQueue A
  pub returns : r ≡ done (some x, next)
  pub holds : Holds next xs

module _ {ℓ} {A : Type ℓ} (q : HiveQueue A) (x : A) (xs : List A) (h : Holds q (x ∷ xs)) where
  open h use {addr}

  first : Placed q.nodes addr (x ∷ xs) 0
  first = h.placed 0 (omega arith)

  msg_first : first.msg ≡ x
  msg_first = sym (some-injective x first.msg first.listed)

  first_node : q.nodes (addr 0) ≡ some (record { msg = x; next = pointer addr (suc (length xs)) 1 })
  first_node =
      first.stored
      ∙ ap (λ m. some (record { msg = m; next = pointer addr (suc (length xs)) 1 })) msg_first

  head_some : q.head ≡ some (addr 0)
  head_some = h.head_at ∙ rw (lt→ltb {a = 0} {b = suc (length xs)} (omega arith)) refl

  peek-cons : peek q ≡ done (some x)
  unfolding peek
  peek-cons =
      ap (peek_at q.nodes) head_some
      ∙ ap (λ r. r >>= λ n. done (some n.msg)) (deref_lem q.nodes (addr 0) _ first_node)

  abbrev freed : ℕ → Option (Node A)
  freed = update q.nodes (addr 0) none

  abbrev addr' : ℕ → ℕ
  addr' k = addr (suc k)

  abbrev removed : HiveQueue A
  removed = record {
    count = q.count - 1;
    head = pointer addr (suc (length xs)) 1;
    tail = tail_after (pointer addr (suc (length xs)) 1) q.tail;
    nodes = freed;
  }

  remove-eq : length xs + 1 < u32_mod → remove q ≡ done (true, removed)
  unfolding remove
  remove-eq word =
      let no_wrap : sub32 q.count 1 ≡ q.count - 1 = omega (arith, h.counted) in
      ap (remove_from q) head_some
      ∙ ap
          (λ r. r >>= λ n. done (
            true,
            record {
              count = sub32 q.count 1;
              head = n.next;
              tail = tail_after n.next q.tail;
              nodes = freed;
            },
          ))
          (deref_lem q.nodes (addr 0) _ first_node)
      ∙ rw no_wrap refl

  others : (k : ℕ) → k < length xs → freed (addr' k) ≡ q.nodes (addr' k)
  others k lt =
      update-off q.nodes (addr 0) (addr' k) none
        (λ e. omega (arith, h.distinct (suc k) 0 (omega arith) (omega arith) e))

  elsewhere :
      (p : ℕ)
      → addr 0 == p ≡ false
      → ((k : ℕ) → k < length xs → addr' k ≢ p)
      → (k : ℕ) → k < suc (length xs)
      → addr k ≢ p
  elsewhere p ne other zero lt e = ground arith
  elsewhere p ne other (suc k) lt e = other k (omega arith) e

  removed-Holds : Holds removed xs
  removed-Holds = record {
    addr = addr';
    counted = omega (arith, h.counted);
    head_at = ground arith;
    tail_at = ground (arith, h.tail_at);
    distinct = λ i j a b e. omega (arith, h.distinct (suc i) (suc j) (omega arith) (omega arith) e);
    placed = λ k lt.
        let old = h.placed (suc k) (omega arith) in
        record {
          msg = old.msg;
          listed = old.listed;
          stored =
              others k lt
              ∙ old.stored
              ∙ ap (λ p. some (record { msg = old.msg; next = p })) (ground arith);
        };
    no_other = λ p other. elim (Bool-cases (addr 0 == p)) [
      | inl e ↦ update-at q.nodes (addr 0) p none (ground arith)
      | inr ne ↦
          update-off q.nodes (addr 0) p none (ground arith) ∙ h.no_other p (elsewhere p ne other)
    ];
  }

  -- On a queue that holds `x` and then `xs`, with a count that fits 32 bits, `pop` answers `x`
  -- and leaves a queue that holds `xs`, with the node of `x` freed and no other.
  pub pop-Popped : length xs + 1 < u32_mod → Popped x xs (pop q)
  unfolding pop
  pop-Popped word = record {
    next = removed;
    returns = rw (peek-cons, remove-eq word) refl;
    holds = removed-Holds;
  }

-- `pop` of an empty queue answers false and changes nothing.
pub pop-none {ℓ} : {A : Type ℓ} (q : HiveQueue A) → Holds q [] → pop q ≡ done (none, q)
unfolding pop peek
pop-none q h =
    ap
      (λ p. peek_at q.nodes p >>= λ r. elim r [
        | some m ↦ remove q >>= λ removed. done (if removed.0 then some m else none, removed.1)
        | none ↦ done (none, q)
      ])
      h.head_at

-- `r` is a memory without any node.
pub record Emptied {ℓ} {A : Type ℓ} (r : Outcome (ℕ → Option (Node A))) : Type ℓ where
  pub left : ℕ → Option (Node A)
  pub returns : r ≡ done left
  pub nothing : (p : ℕ) → left p ≡ none

free_all-nil {ℓ} :
    {A : Type ℓ} (fuel : ℕ) (nodes : ℕ → Option (Node A))
    → free_all (suc fuel) nodes none ≡ done nodes
unfolding free_all
free_all-nil fuel nodes = refl

free_all-cons {ℓ} :
    {A : Type ℓ} (fuel : ℕ) (nodes : ℕ → Option (Node A)) (p : ℕ) (n : Node A)
    → nodes p ≡ some n
    → free_all (suc fuel) nodes (some p) ≡ free_all fuel (update nodes p none) n.next
unfolding free_all
free_all-cons fuel nodes p n e =
    ap (λ r. r >>= λ m. free_all fuel (update nodes p none) m.next) (deref_lem nodes p n e)

free_all-Emptied {ℓ} :
    {A : Type ℓ} (fuel : ℕ) (xs : List A) (q : HiveQueue A)
    → Holds q xs
    → length xs < fuel
    → Emptied (free_all fuel q.nodes q.head)
free_all-Emptied zero xs q h lt = absurd (omega arith)
free_all-Emptied (suc fuel) [] q h lt = record {
  left = q.nodes;
  returns = ap (free_all (suc fuel) q.nodes) h.head_at ∙ free_all-nil fuel q.nodes;
  nothing = λ p. h.no_other p (λ k k_in. absurd (omega arith));
}
free_all-Emptied (suc fuel) (x ∷ xs) q h lt =
    let rest = free_all-Emptied fuel xs (removed q x xs h) (removed-Holds q x xs h) (omega arith) in
    record {
      left = rest.left;
      returns =
          ap (free_all (suc fuel) q.nodes) (head_some q x xs h)
          ∙ free_all-cons fuel q.nodes (h.addr 0) _ (first_node q x xs h)
          ∙ rest.returns;
      nothing = rest.nothing;
    }

-- On a queue that holds a list, the destructor ends, follows no freed pointer and leaves no node
-- in memory.
pub destroy-Emptied {ℓ} :
    {A : Type ℓ} (q : HiveQueue A) (xs : List A) → Holds q xs → Emptied (destroy q)
unfolding destroy
destroy-Emptied q xs h = free_all-Emptied (suc q.count) xs q h (omega (arith, h.counted))
