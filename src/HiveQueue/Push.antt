-- ===== src/HiveQueue/Push.antt =====
-- `HiveQueue<T>::push` appends a message to the list that a queue holds.
use native.Mathlib.Decide.{dec_lt}
use mathlib.Core.Path.{ap₂}
use operation_front_line.Common.{
  ℕ, suc, ◌+◌, ◌-◌, ◌<◌, ◌≡◌, ◌≢◌, refl, ap, sym, ◌∙◌, lt→ltb, Option, none, some, List, [], ◌∷◌,
  ◌++◌, ◌==◌, if◌then◌else◌, length, length-append, get_elem?, get_elem?-append_left,
  get_elem?-append_last, u32, u32_mod, arith, Outcome, done, ◌>>=◌,
}
use operation_front_line.HiveQueue.{Node, HiveQueue, update, push_into, push}
use operation_front_line.HiveQueue.Chain.{pointer, Placed, Holds, update-at, update-off, deref_lem}

-- `r` is a queue that holds `xs`.
pub record Pushed {ℓ} {A : Type ℓ} (xs : List A) (r : Outcome (HiveQueue A)) : Type ℓ where
  pub next : HiveQueue A
  pub returns : r ≡ done next
  pub holds : Holds next xs

module _ {ℓ} {A : Type ℓ} (q : HiveQueue A) (address : ℕ) (msg : A)
    (free : q.nodes address ≡ none) where
  push_empty : Holds q [] → Pushed (msg ∷ []) (push q address msg)
  unfolding push
  push_empty h = record {
    next = record {
      count = 1;
      head = some address;
      tail = some address;
      nodes = update q.nodes address (some (record { msg = msg; next = none }));
    };
    returns = rw h.head_at refl;
    holds = record {
      addr = λ k. address;
      counted = refl;
      head_at = refl;
      tail_at = refl;
      distinct = λ i j a b e. omega arith;
      placed = λ k k_in. record {
        msg = msg;
        listed = ap (get_elem? (msg ∷ [])) {x = k} {y = 0} (omega arith);
        stored = update-at q.nodes address address _ refl ∙ ground arith;
      };
      no_other = λ p other.
          update-off q.nodes address p _ (λ e. other 0 (omega arith) (sym e))
          ∙ h.no_other p (λ k k_in. absurd (omega arith));
    };
  }

module _ {ℓ} {A : Type ℓ} (q : HiveQueue A) (address : ℕ) (msg : A) (free : q.nodes address ≡ none)
    (xs : List A) (h : Holds q xs) (some_in : 0 < length xs) (word : length xs + 1 < u32_mod) where
  -- The addresses after the push.
  abbrev addr' : ℕ → ℕ
  addr' k = if k == length xs then address else h.addr k

  abbrev last : ℕ
  last = h.addr (length xs - 1)

  last_node : Placed q.nodes h.addr xs (length xs - 1)
  last_node = h.placed (length xs - 1) (omega arith)

  abbrev made : ℕ → Option (Node A)
  made = update q.nodes address (some (record { msg = msg; next = none }))

  abbrev linked : ℕ → Option (Node A)
  linked = update made last (some (record { msg = last_node.msg; next = some address }))

  abbrev pushed : HiveQueue A
  pushed = record {
    count = q.count + 1;
    head = some (h.addr 0);
    tail = some address;
    nodes = linked;
  }

  unused : (k : ℕ) → k < length xs → h.addr k ≢ address
  unused k lt e = cc ((h.placed k lt).stored, free, e)

  head_some : q.head ≡ some (h.addr 0)
  head_some = h.head_at ∙ rw (lt→ltb some_in) refl

  tail_some : q.tail ≡ some last
  tail_some = h.tail_at ∙ rw (lt→ltb some_in) refl

  last_made :
      made last
      ≡ some
          (record { msg = last_node.msg; next = pointer h.addr (length xs) (suc (length xs - 1)) })
  last_made =
      update-off q.nodes address last _ (unused (length xs - 1) (omega arith)) ∙ last_node.stored

  push-eq : push q address msg ≡ done pushed
  unfolding push
  push-eq =
      let no_wrap : u32 (q.count + 1) ≡ q.count + 1 = omega (arith, h.counted) in
      ap₂ (λ a b. push_into q address a b made) head_some tail_some
      ∙ ap
          (λ r. r >>= λ n. done (record {
            count = u32 (q.count + 1);
            head = some (h.addr 0);
            tail = some address;
            nodes = update made last (some (record { msg = n.msg; next = some address }));
          }))
          (deref_lem made last _ last_made)
      ∙ rw no_wrap refl

  old_addr : (k : ℕ) → k < length xs → addr' k ≡ h.addr k
  old_addr k lt = ground arith

  new_addr : (k : ℕ) → k ≡ length xs → addr' k ≡ address
  new_addr k e = ground arith

  pushed-length : length (xs ++ (msg ∷ [])) ≡ length xs + 1
  pushed-length = length-append xs (msg ∷ [])

  earlier : (k : ℕ) → suc k < length xs → Placed linked addr' (xs ++ (msg ∷ [])) k
  earlier k lt =
      let old = h.placed k (omega arith) in
      let next_same : pointer h.addr (length xs) (suc k)
          ≡ pointer addr' (length (xs ++ (msg ∷ []))) (suc k) =
        rw pushed-length (ground arith) in
      record {
        msg = old.msg;
        listed = get_elem?-append_left xs (msg ∷ []) k (omega arith) ∙ old.listed;
        stored =
            ap linked (old_addr k (omega arith))
            ∙ update-off made last (h.addr k) _
                (λ e. omega (arith, h.distinct k (length xs - 1) (omega arith) (omega arith) e))
            ∙ update-off q.nodes address (h.addr k) _ (unused k (omega arith))
            ∙ old.stored
            ∙ ap (λ p. some (record { msg = old.msg; next = p })) next_same;
      }

  before : (k : ℕ) → suc k ≡ length xs → Placed linked addr' (xs ++ (msg ∷ [])) k
  before k e = record {
    msg = last_node.msg;
    listed =
        get_elem?-append_left xs (msg ∷ []) k (omega arith)
        ∙ ap (get_elem? xs) {x = k} {y = length xs - 1} (omega arith)
        ∙ last_node.listed;
    stored =
        ap linked (old_addr k (omega arith))
        ∙ update-at made last (h.addr k) _ (ap h.addr (omega arith))
        ∙ ap (λ p. some (record { msg = last_node.msg; next = p }))
            (rw pushed-length (ground arith));
  }

  newest : (k : ℕ) → k ≡ length xs → Placed linked addr' (xs ++ (msg ∷ [])) k
  newest k e = record {
    msg = msg;
    listed = get_elem?-append_last xs msg k e;
    stored =
        ap linked (new_addr k e)
        ∙ update-off made last address _ (λ e'. unused (length xs - 1) (omega arith) (sym e'))
        ∙ update-at q.nodes address address _ refl
        ∙ ap (λ p. some (record { msg = msg; next = p })) (rw pushed-length (ground arith));
  }

  pushed-Holds : Holds pushed (xs ++ (msg ∷ []))
  pushed-Holds = record {
    addr = addr';
    counted = omega (arith, h.counted, pushed-length);
    head_at = rw pushed-length (ground arith);
    tail_at = rw pushed-length (ground arith);
    distinct = λ i j a b e. ground (arith, pushed-length, h.distinct i j, unused i, unused j);
    placed = λ k k_in. elim (dec_lt (suc k) (length xs)) [
      | yes p ↦ earlier k p
      | no p ↦ elim (dec_lt k (length xs)) [
        | yes p' ↦ before k (omega arith)
        | no p' ↦ newest k (omega (arith, pushed-length))
      ]
    ];
    no_other = λ p other.
        update-off made last p _ (λ e.
          other (length xs - 1) (omega (arith, pushed-length))
            (old_addr (length xs - 1) (omega arith) ∙ sym e))
        ∙ update-off q.nodes address p _ (λ e.
          other (length xs) (omega (arith, pushed-length)) (new_addr (length xs) refl ∙ sym e))
        ∙ h.no_other p (λ k lt e. other k (omega (arith, pushed-length)) (old_addr k lt ∙ e));
  }

-- On a queue that holds `xs`, with a count that fits 32 bits after it and whatever free address
-- `new` answers, `push` leaves a queue that holds `xs` and then the message.
pub push-Pushed {ℓ} :
    {A : Type ℓ} (q : HiveQueue A) (address : ℕ) (msg : A) (xs : List A)
    → q.nodes address ≡ none
    → Holds q xs
    → length xs + 1 < u32_mod
    → Pushed (xs ++ (msg ∷ [])) (push q address msg)
push-Pushed q address msg [] free h word = push_empty q address msg free h
push-Pushed q address msg (x ∷ xs) free h word = record {
  next = pushed q address msg free (x ∷ xs) h (omega arith) word;
  returns = push-eq q address msg free (x ∷ xs) h (omega arith) word;
  holds = pushed-Holds q address msg free (x ∷ xs) h (omega arith) word;
}
