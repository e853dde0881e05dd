-- ===== src/Mailbox/Receive.antt =====
-- `receiveAll` of a mailbox that holds messages: it takes them all, in their order.
use operation_front_line.Common.{
  ℕ, zero, suc, ◌+◌, ◌^◌, ◌<◌, ◌≤◌, ◌≡◌, refl, ap, sym, ◌∙◌, lt→ltb, true, ltb, Option, none, some,
  List, [], ◌∷◌, u32, length, get_elem?, arith, Outcome, done, ◌>>=◌,
}
use operation_front_line.HiveQueueC.{HiveQueueC, Buffer, store, new_array, size, update}
use operation_front_line.HiveQueueC.Invariant.{Holds}
use operation_front_line.HiveQueueC.Fifo.{size-Holds}
use operation_front_line.Mailbox.{
  Mailbox, Received, load_msg, collect, receive_all, receive_rest, after_wait, receive_all_turn,
}
use operation_front_line.Mailbox.Queue.{Keeps, Loaded, load_msg-cons, load_msg-nil}

module _ {ℓ} {A : Type ℓ} where
  -- The loop over a mailbox that holds `xs` writes them from the `i`-th cell on.
  pub record Collected (xs : List A) (i : ℕ) (messages : Buffer A)
      (r : Outcome (Buffer A × Mailbox A)) : Type ℓ where
    pub copy : Buffer A
    pub rest : Mailbox A
    pub returns : r ≡ done (copy, rest)
    pub same_size : copy.size ≡ messages.size
    pub kept : (k : ℕ) → k < i → copy.cell k ≡ messages.cell k
    pub moved : (k : ℕ) → k < length xs → copy.cell (i + k) ≡ get_elem? xs k
    pub empty : Keeps rest []

  module _ (x : A) (i : ℕ) (messages : Buffer A) where
    abbrev put : Buffer A
    put = record { size = messages.size; cell = update messages.cell i (some x) }

    store-put : i < messages.size → store messages i (some x) ≡ done put
    store-put h = rw (lt→ltb h) refl

    put-at : (k : ℕ) → k ≡ i → put.cell k ≡ some x
    put-at k e = ground arith

    put-off : (k : ℕ) → k < i → put.cell k ≡ messages.cell k
    put-off k h = ground arith

  collect-cons :
      (x : A) (xs : List A) (fuel : ℕ) (b : Mailbox A) (i : ℕ) (messages : Buffer A)
      → (l : Loaded x xs (load_msg b)) → i < messages.size
      → i + 1 < 2 ^ 31
      → Collected xs (i + 1) (put x i messages) (
          collect fuel
            (record { msg_queue = l.rest; current_msg = some x })
            (i + 1)
            (put x i messages))
      → Collected (x ∷ xs) i messages (collect (suc fuel) b i messages)
  unfolding collect
  collect-cons x xs fuel b i messages l fits int later = record {
    copy = later.copy;
    rest = later.rest;
    returns =
        rw (l.returns, store-put x i messages fits, lt→ltb {a = i + 1} {b = 2 ^ 31} int)
          (later.returns);
    same_size = later.same_size;
    kept = λ k k_in. later.kept k (omega arith) ∙ put-off x i messages k k_in;
    moved = moved;
    empty = later.empty;
  }
    where
      moved : (k : ℕ) → k < suc (length xs) → later.copy.cell (i + k) ≡ get_elem? (x ∷ xs) k
      moved zero k_in = later.kept (i + 0) (omega arith) ∙ put-at x i messages (i + 0) (omega arith)
      moved (suc k) k_in =
          ap (later.copy.cell) {x = i + suc k} {y = i + 1 + k} (omega arith)
          ∙ later.moved k (omega arith)

  collect-Collected :
      (xs : List A) (fuel : ℕ) (b : Mailbox A) (i : ℕ) (messages : Buffer A)
      → Keeps b xs
      → length xs < fuel
      → i + length xs ≤ messages.size
      → i + length xs < 2 ^ 31
      → Collected xs i messages (collect fuel b i messages)
  unfolding collect
  collect-Collected xs zero b i messages h lt fits int = absurd (omega arith)
  collect-Collected [] (suc fuel) b i messages h lt fits int = record {
    copy = messages;
    rest = b;
    returns = rw (load_msg-nil b h) refl;
    same_size = refl;
    kept = λ k k_in. refl;
    moved = λ k k_in. absurd (omega arith);
    empty = h;
  }
  collect-Collected (x ∷ xs) (suc fuel) b i messages h lt fits int =
      let l = load_msg-cons b x xs h in
      collect-cons x xs fuel b i messages l (omega arith) (omega arith) (
        collect-Collected xs fuel (record { msg_queue = l.rest; current_msg = some x }) (i + 1)
          (put x i messages) (l.holds) (omega arith) (omega arith) (omega arith))

  -- The answer holds `xs`, and the mailbox nothing any more.
  pub record Drained (xs : List A) (r : Outcome (Received A × Mailbox A)) : Type ℓ where
    pub received : Received A
    pub rest : Mailbox A
    pub returns : r ≡ done (received, rest)
    pub answered : received.result ≡ ltb 0 (length xs)
    pub sized : received.size_of ≡ length xs
    pub allocated : received.messages.size ≡ length xs
    pub listed : (k : ℕ) → k < length xs → received.messages.cell k ≡ get_elem? xs k
    pub empty : Keeps rest []

  -- A call that does not block answers the messages in their order and leaves the mailbox empty.
  pub receive_all-Drained :
      (b : Mailbox A) (xs : List A) → Keeps b xs → length xs < 2 ^ 31 → Drained xs (receive_all b)
  unfolding receive_all
  receive_all-Drained b xs h small = record {
    received = record {
      result = ltb 0 (size (b.msg_queue));
      size_of = size (b.msg_queue);
      messages = c.copy;
    };
    rest = c.rest;
    returns =
        ap
          (λ r. r >>= (λ r'. done (
            record {
              result = ltb 0 (size (b.msg_queue));
              size_of = size (b.msg_queue);
              messages = r'.0;
            },
            r'.1,
          )))
          (c.returns);
    answered = ap (ltb 0) (size-Holds h);
    sized = size-Holds h;
    allocated = c.same_size ∙ size-Holds h;
    listed = λ k k_in. ap (c.copy.cell) {x = k} {y = 0 + k} (omega arith) ∙ c.moved k k_in;
    empty = c.empty;
  }
    where
      c :
          Collected xs 0
            (new_array (size (b.msg_queue)))
            (collect (suc (size (b.msg_queue))) b 0 (new_array (size (b.msg_queue))))
      c =
          collect-Collected xs (suc (size (b.msg_queue))) b 0 (new_array (size (b.msg_queue))) h
            (omega (arith, size-Holds h)) (omega (arith, size-Holds h)) (omega arith)

  -- Behind the wait, with an array of the size that is meant.
  module _ (x : A) (xs : List A) (q : HiveQueueC A) (h : Holds q xs)
      (small : suc (length xs) < 2 ^ 31) (n : ℕ) (sized : n ≡ suc (length xs)) where
    abbrev box : Mailbox A
    box = record { msg_queue = q; current_msg = some x }

    rest-Collected :
        Collected xs 1 (put x 0 (new_array n)) (collect (suc n) box 1 (put x 0 (new_array n)))
    rest-Collected =
        collect-Collected xs (suc n) box 1 (put x 0 (new_array n)) h (omega arith) (omega arith)
          (omega arith)

    rest-listed : (k : ℕ) → k < suc (length xs) → rest-Collected.copy.cell k ≡ get_elem? (x ∷ xs) k
    rest-listed zero k_in = rest-Collected.kept 0 (omega arith) ∙ put-at x 0 (new_array n) 0 refl
    rest-listed (suc k) k_in =
        ap (rest-Collected.copy.cell) {x = suc k} {y = 1 + k} (omega arith)
        ∙ rest-Collected.moved k (omega arith)

    rest-Drained : Drained (x ∷ xs) (
        store (new_array n) 0 (some x)
        >>= (λ m. collect (suc n) box 1 m)
        >>= (λ r. done (record { result = true; size_of = n; messages = r.0 }, r.1)))
    rest-Drained = record {
      received = record { result = true; size_of = n; messages = rest-Collected.copy };
      rest = rest-Collected.rest;
      returns = rw (store-put x 0 (new_array n) (omega arith), rest-Collected.returns) refl;
      answered = sym (lt→ltb {a = 0} {b = suc (length xs)} (omega arith));
      sized = sized;
      allocated = rest-Collected.same_size ∙ sized;
      listed = rest-listed;
      empty = rest-Collected.empty;
    }

  -- A turn of a call that blocks, on a mailbox with messages.
  pub record Woken (xs : List A) (r : Outcome (Option (Received A) × Mailbox A)) : Type ℓ where
    pub answer : Outcome (Received A × Mailbox A)
    pub drained : Drained xs answer
    pub returns : r ≡ done (some (drained.received), drained.rest)

  pub receive_all_turn-Woken :
      (b : Mailbox A) (x : A) (xs : List A)
      → Keeps b (x ∷ xs)
      → length (x ∷ xs) < 2 ^ 31
      → Woken (x ∷ xs) (receive_all_turn b)
  unfolding receive_all_turn
  receive_all_turn-Woken b x xs h small = record {
    answer = receive_rest (box x xs (l.rest) (l.holds) small n word);
    drained = d;
    returns =
        ap (λ r. r >>= after_wait) (l.returns)
        ∙ ap (λ r. r >>= (λ r'. done (some (r'.0), r'.1))) (d.returns);
  }
    where
      l : Loaded x xs (load_msg b)
      l = load_msg-cons b x xs h

      n : ℕ
      n = u32 (size (l.rest) + 1)

      word : n ≡ suc (length xs)
      word = ground (arith, size-Holds (l.holds))

      d : Drained (x ∷ xs) (receive_rest (box x xs (l.rest) (l.holds) small n word))
      d = rest-Drained x xs (l.rest) (l.holds) small n word

  -- A turn of a call that blocks.
  pub receive_all_turn-nil : (b : Mailbox A) → Keeps b [] → receive_all_turn b ≡ done (none, b)
  unfolding receive_all_turn
  receive_all_turn-nil b h = ap (λ r. r >>= after_wait) (load_msg-nil b h)
