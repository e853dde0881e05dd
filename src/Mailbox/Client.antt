-- ===== src/Mailbox/Client.antt =====
-- What the threads' calls on one mailbox answer, in whatever order they come, against a plain list.
use operation_front_line.Common.{
  ltb, ℕ, zero, suc, ◌+◌, ◌^◌, ◌<◌, ◌≡◌, refl, ap, ◌∙◌, lt→ltb, Bool, true, false, Option, none,
  some, List, [], ◌∷◌, ◌++◌, length, length-append, get_elem?, arith, Outcome, done, ◌>>=◌,
}
use mathlib.Core.Path.{ap₂}
use operation_front_line.HiveQueueC.{hq_init_size}
use operation_front_line.Mailbox.{
  Mailbox, Received, send_msg, send_all, receive_msg, receive_all, receive_all_turn,
}
use operation_front_line.Mailbox.Queue.{
  Keeps, answer, load_msg-cons, send_msg-Sent, send_all-Sent, receive_msg-cons, receive_msg-nil,
}
use operation_front_line.Mailbox.Receive.{
  Drained, receive_all-Drained, receive_all_turn-Woken, receive_all_turn-nil,
}

pub data Op {ℓ} (A : Type ℓ) : Type ℓ where
  send : A → Op A
  send_many : List A → Op A
  receive : Op A
  receive_many : Op A
  wait_many : Op A

-- An array is its cells, with the answer of the call. No answer is to wait on, or false.
pub data Reply {ℓ} (A : Type ℓ) : Type ℓ where
  accepted : Bool → Reply A
  received : Option A → Reply A
  received_many : Option (Bool × List (Option A)) → Reply A

module _ {ℓ} {A : Type ℓ} where
  pub read_cells : ℕ → (ℕ → Option A) → List (Option A)
  read_cells zero cell = []
  read_cells (suc n) cell = cell 0 ∷ read_cells n (λ k. cell (suc k))

  abbrev pub contents : Received A → Bool × List (Option A)
  contents r = (r.result, read_cells (r.size_of) (r.messages.cell))

  abbrev pub all_some : List A → List (Option A)
  all_some [] = []
  all_some (x ∷ xs) = some x ∷ all_some xs

  abbrev pub contents_of : Option (Received A) → Option (Bool × List (Option A))
  contents_of none = none
  contents_of (some r) = some (contents r)

  -- The answers of the code.
  unfoldable pub answers : Mailbox A → List (Op A) → Outcome (List (Reply A))
  answers b [] = done []
  answers b (send m ∷ ops) =
      send_msg b m >>= (λ r. answers r.1 ops >>= (λ replies. done (accepted r.0 ∷ replies)))
  answers b (send_many ms ∷ ops) =
      send_all b ms >>= (λ r. answers r.1 ops >>= (λ replies. done (accepted r.0 ∷ replies)))
  answers b (receive ∷ ops) =
      receive_msg b >>= (λ r. answers r.1 ops >>= (λ replies. done (received r.0 ∷ replies)))
  answers b (receive_many ∷ ops) = receive_all b >>= (λ r.
      answers r.1 ops >>= (λ replies. done (received_many (some (contents r.0)) ∷ replies)))
  answers b (wait_many ∷ ops) =
      receive_all_turn b
      >>= (λ r. answers r.1 ops >>= (λ replies. done (received_many (contents_of r.0) ∷ replies)))

  -- The answers of a list that messages are put behind and taken from in front.
  unfoldable pub reference : List A → List (Op A) → List (Reply A)
  reference xs [] = []
  reference xs (send m ∷ ops) = accepted true ∷ reference (xs ++ (m ∷ [])) ops
  reference xs (send_many ms ∷ ops) = accepted (answer false ms) ∷ reference (xs ++ ms) ops
  reference [] (receive ∷ ops) = received none ∷ reference [] ops
  reference (x ∷ xs) (receive ∷ ops) = received (some x) ∷ reference xs ops
  reference [] (receive_many ∷ ops) = received_many (some (false, [])) ∷ reference [] ops
  reference (x ∷ xs) (receive_many ∷ ops) =
      received_many (some (true, all_some (x ∷ xs))) ∷ reference [] ops
  reference [] (wait_many ∷ ops) = received_many none ∷ reference [] ops
  reference (x ∷ xs) (wait_many ∷ ops) =
      received_many (some (true, all_some (x ∷ xs))) ∷ reference [] ops

  -- The messages that calls send.
  abbrev pub sent_by : List (Op A) → ℕ
  sent_by [] = 0
  sent_by (send m ∷ ops) = suc (sent_by ops)
  sent_by (send_many ms ∷ ops) = length ms + sent_by ops
  sent_by (receive ∷ ops) = sent_by ops
  sent_by (receive_many ∷ ops) = sent_by ops
  sent_by (wait_many ∷ ops) = sent_by ops

  read_cells-all_some :
      (xs : List A) (cell : ℕ → Option A)
      → ((k : ℕ) → k < length xs → cell k ≡ get_elem? xs k)
      → read_cells (length xs) cell ≡ all_some xs
  unfolding read_cells
  read_cells-all_some [] cell h = refl
  read_cells-all_some (x ∷ xs) cell h =
      ap₂ (λ a b. a ∷ b) (h 0 (omega arith))
        (read_cells-all_some xs (λ k. cell (suc k)) (λ k k_in. h (suc k) (omega arith)))

  contents-Drained :
      (xs : List A) (r : Outcome (Received A × Mailbox A)) (d : Drained xs r)
      → contents (d.received) ≡ (ltb 0 (length xs), all_some xs)
  contents-Drained xs r d =
      ap₂ (λ result cells. (result, cells)) (d.answered)
        (ap (λ n. read_cells n (d.received.messages.cell)) (d.sized)
          ∙ read_cells-all_some xs (d.received.messages.cell) (d.listed))

  -- From a mailbox that holds `xs`, every sequence of the threads' calls gets the answers of the list, as long
  -- as `xs` and what is sent stay 50 below 2 ^ 31 messages.
  pub answers-eq-reference :
      (ops : List (Op A)) (b : Mailbox A) (xs : List A)
      → Keeps b xs
      → length xs + sent_by ops + hq_init_size < 2 ^ 31
      → answers b ops ≡ done (reference xs ops)
  unfolding answers reference
  answers-eq-reference [] b xs h small = refl
  answers-eq-reference (send m ∷ ops) b xs h small =
      let r = send_msg-Sent b m xs h (omega arith) in
      rw
        (
          r.returns,
          answers-eq-reference ops (r.next) (xs ++ (m ∷ [])) (r.holds)
              (omega (arith, length-append xs (m ∷ []))),
        )
        refl
  answers-eq-reference (send_many ms ∷ ops) b xs h small =
      let r = send_all-Sent ms b xs h (omega arith) in
      rw
        (
          r.returns,
          answers-eq-reference ops (r.next) (xs ++ ms) (r.holds)
              (omega (arith, length-append xs ms)),
        )
        refl
  answers-eq-reference (receive ∷ ops) b [] h small =
      rw (receive_msg-nil b h, answers-eq-reference ops b [] h (omega arith)) refl
  answers-eq-reference (receive ∷ ops) b (x ∷ xs) h small =
      let l = load_msg-cons b x xs h in
      rw
        (
          receive_msg-cons b x xs l,
          answers-eq-reference ops (record { msg_queue = l.rest; current_msg = some x }) xs
              (l.holds) (omega arith),
        )
        refl
  answers-eq-reference (receive_many ∷ ops) b [] h small =
      let d = receive_all-Drained b [] h (omega arith) in
      rw
        (
          d.returns,
          contents-Drained [] _ d,
          answers-eq-reference ops (d.rest) [] (d.empty) (omega arith),
        )
        refl
  answers-eq-reference (receive_many ∷ ops) b (x ∷ xs) h small =
      let d = receive_all-Drained b (x ∷ xs) h (omega arith) in
      rw
        (
          d.returns,
          contents-Drained (x ∷ xs) _ d,
          lt→ltb {a = 0} {b = suc (length xs)} (omega arith),
          answers-eq-reference ops (d.rest) [] (d.empty) (omega arith),
        )
        refl
  answers-eq-reference (wait_many ∷ ops) b [] h small =
      rw (receive_all_turn-nil b h, answers-eq-reference ops b [] h (omega arith)) refl
  answers-eq-reference (wait_many ∷ ops) b (x ∷ xs) h small =
      let w = receive_all_turn-Woken b x xs h (omega arith) in
      rw
        (
          w.returns,
          contents-Drained (x ∷ xs) _ (w.drained),
          lt→ltb {a = 0} {b = suc (length xs)} (omega arith),
          answers-eq-reference ops (w.drained.rest) [] (w.drained.empty) (omega arith),
        )
        refl
