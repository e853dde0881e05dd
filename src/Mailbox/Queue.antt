-- ===== src/Mailbox/Queue.antt =====
-- The calls on a mailbox that holds messages, oldest first: what is sent is received in order and once.
use operation_front_line.Common.{
  suc, ◌+◌, ◌<◌, ◌≡◌, refl, ap, sym, ◌∙◌, inl, inr, lt→ltb, Bool, true, false, none, some, List, [],
  ◌∷◌, ◌++◌, u32_mod, length, length-append, arith, Outcome, done, ◌>>=◌,
}
use mathlib.Core.List.{append_assoc, append-nil}
use native.Mathlib.Decide.{dec_lt}
use operation_front_line.HiveQueueC.{HiveQueueC, hq_init_size, push}
use operation_front_line.HiveQueueC.Invariant.{Holds}
use operation_front_line.HiveQueueC.Fifo.{Accepted, push-Accepted, pop-Delivered, size-Holds}
use operation_front_line.Mailbox.{
  Mailbox, load_msg, send_msg, send_loop, send_all, take_current, receive_msg,
}

module _ {ℓ} {A : Type ℓ} where
  -- The messages of a mailbox.
  abbrev pub Keeps : Mailbox A → List A → Type ℓ
  Keeps b xs = Holds (b.msg_queue) xs

  -- The mailbox after a message was loaded.
  pub record Loaded (x : A) (xs : List A) (r : Outcome (Bool × Mailbox A)) : Type ℓ where
    pub rest : HiveQueueC A
    pub returns : r ≡ done (true, record { msg_queue = rest; current_msg = some x })
    pub holds : Holds rest xs

  pub load_msg-cons :
      (b : Mailbox A) (x : A) (xs : List A) → Keeps b (x ∷ xs) → Loaded x xs (load_msg b)
  unfolding load_msg
  load_msg-cons b x xs h =
      let d = pop-Delivered (b.msg_queue) x xs h in
      record {
        rest = d.next;
        returns =
            rw (size-Holds h, lt→ltb {a = 0} {b = suc (length xs)} (omega arith), d.returns) refl;
        holds = d.holds;
      }

  pub load_msg-nil : (b : Mailbox A) → Keeps b [] → load_msg b ≡ done (false, b)
  unfolding load_msg
  load_msg-nil b h = rw (size-Holds h) refl

  -- `r` is the answer `result`, with a mailbox that holds `xs`.
  pub record Sent (result : Bool) (xs : List A) (r : Outcome (Bool × Mailbox A)) : Type ℓ where
    pub next : Mailbox A
    pub returns : r ≡ done (result, next)
    pub holds : Keeps next xs

  -- A message is sent behind those that the mailbox holds.
  pub send_msg-Sent :
      (b : Mailbox A) (m : A) (xs : List A)
      → Keeps b xs
      → length xs + hq_init_size < u32_mod
      → Sent true (xs ++ (m ∷ [])) (send_msg b m)
  unfolding send_msg
  send_msg-Sent b m xs h small = record {
    next = record b { msg_queue = r.next };
    returns = rw (r.returns) refl;
    holds = r.holds;
  }
    where
      r : Accepted (xs ++ (m ∷ [])) (push (b.msg_queue) m)
      r = push-Accepted m h (elim (dec_lt (b.msg_queue.count) (b.msg_queue.a_size)) [
        | yes p ↦ inl p
        | no p ↦ inr (omega (arith, h.counted))
      ])

  abbrev pub answer : Bool → List A → Bool
  answer result [] = result
  answer result (m ∷ messages) = true

  answer-true : (ms : List A) → answer true ms ≡ true
  answer-true [] = refl
  answer-true (m ∷ ms) = refl

  send_loop-cons :
      (m : A) (ms : List A) (result : Bool) (b : Mailbox A) (xs : List A)
      → (first : Sent true (xs ++ (m ∷ [])) (send_msg b m))
      → Sent (answer true ms) (xs ++ (m ∷ []) ++ ms) (send_loop true (first.next) ms)
      → Sent true (xs ++ (m ∷ ms)) (send_loop result b (m ∷ ms))
  unfolding send_loop
  send_loop-cons m ms result b xs first rest = record {
    next = rest.next;
    returns =
        ap (λ r. r >>= (λ r'. send_loop r'.0 r'.1 ms)) (first.returns)
        ∙ rest.returns
        ∙ ap (λ t. done (t, rest.next)) (answer-true ms);
    holds = rw (sym (append_assoc xs (m ∷ []) ms)) (rest.holds);
  }

  send_loop-Sent :
      (ms : List A) (result : Bool) (b : Mailbox A) (xs : List A)
      → Keeps b xs
      → length xs + length ms + hq_init_size < u32_mod
      → Sent (answer result ms) (xs ++ ms) (send_loop result b ms)
  unfolding send_loop
  send_loop-Sent [] result b xs h small = record {
    next = b;
    returns = refl;
    holds = rw (append-nil xs) h;
  }
  send_loop-Sent (m ∷ ms) result b xs h small =
      let first = send_msg-Sent b m xs h (omega arith) in
      send_loop-cons m ms result b xs first (
        send_loop-Sent ms true (first.next) (xs ++ (m ∷ [])) (first.holds)
          (omega (arith, length-append xs (m ∷ []))))

  -- Messages are sent in their order; with none, the answer is false.
  pub send_all-Sent :
      (ms : List A) (b : Mailbox A) (xs : List A)
      → Keeps b xs
      → length xs + length ms + hq_init_size < u32_mod
      → Sent (answer false ms) (xs ++ ms) (send_all b ms)
  unfolding send_all
  send_all-Sent ms b xs h small = send_loop-Sent ms false b xs h small

  pub receive_msg-cons :
      (b : Mailbox A) (x : A) (xs : List A) (l : Loaded x xs (load_msg b))
      → receive_msg b ≡ done (some x, record { msg_queue = l.rest; current_msg = some x })
  unfolding receive_msg
  receive_msg-cons b x xs l = ap (λ r. r >>= take_current) (l.returns)

  pub receive_msg-nil : (b : Mailbox A) → Keeps b [] → receive_msg b ≡ done (none, b)
  unfolding receive_msg
  receive_msg-nil b h = ap (λ r. r >>= take_current) (load_msg-nil b h)
