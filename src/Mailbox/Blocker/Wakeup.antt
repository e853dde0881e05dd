-- ===== src/Mailbox/Blocker/Wakeup.antt =====
-- No wake-up is lost between a sender and the thread that waits.
use operation_front_line.Common.{
  ℕ, zero, suc, ◌+◌, ◌^◌, ◌<◌, ◌≤◌, ◌≡◌, ◌≢◌, refl, ap, ◌∙◌, Bool, true, false, some, List, [], ◌∷◌,
  ◌++◌, length, length-append, arith, Outcome, done, ◌>>=◌,
}
use operation_front_line.HiveQueueC.{hq_init_size}
use operation_front_line.Mailbox.{Mailbox, send_msg, send_all, receive_msg, receive_all}
use operation_front_line.Mailbox.Queue.{
  Keeps, Sent, answer, load_msg-cons, send_msg-Sent, send_all-Sent, receive_msg-cons,
  receive_msg-nil,
}
use operation_front_line.Mailbox.Receive.{
  receive_all-Drained, receive_all_turn-Woken, receive_all_turn-nil,
}
use operation_front_line.Mailbox.Blocker.{
  Blocker, Move, sends, sends_all, notifies, waits, waits_all, takes, takes_all, unlocked,
  send_unlock, send_all_unlock, notify_one, waited, wait_msg, wait_all, taken, if_free, if_underway,
  move, run, arrive,
}

module _ {ℓ} {A : Type ℓ} where
  -- Why a thread with the messages `xs` need not be woken any more.
  pub data Alert (w : Blocker A) (xs : List A) : Type ℓ where
    empty : xs ≡ [] → Alert w xs
    underway : 1 ≤ w.notices → Alert w xs
    ready : w.blocked ≡ false → Alert w xs

  -- A mailbox with at most `most` messages, and its thread on the alert.
  pub record Attended (most : ℕ) (result : Outcome (Blocker A)) : Type ℓ where
    pub next : Blocker A
    pub left : List A
    pub returns : result ≡ done next
    pub few : length left ≤ most
    pub holds : Keeps next.mailbox left
    pub alert : Alert next left

  weaken :
      {few more : ℕ} {result : Outcome (Blocker A)}
      → few ≤ more
      → Attended few result
      → Attended more result
  weaken le t = record {
    next = t.next;
    left = t.left;
    returns = t.returns;
    few = omega (arith, t.few, le);
    holds = t.holds;
    alert = t.alert;
  }

  -- The messages that a move sends.
  abbrev pub cost : Move A → ℕ
  cost (sends m) = 1
  cost (sends_all ms) = length ms
  cost _ = 0

  abbrev pub sent_by : List (Move A) → ℕ
  sent_by [] = 0
  sent_by (m ∷ ms) = cost m + sent_by ms

  module _ (w : Blocker A) (xs : List A) (h : Keeps w.mailbox xs) (a : Alert w xs) where
    stays : Attended (length xs) (done w)
    stays = record { next = w; left = xs; returns = refl; few = omega arith; holds = h; alert = a }

    sends-Attended :
        (m : A) → length xs + hq_init_size + 1 < 2 ^ 31 → Attended (length xs + 1) (send_unlock w m)
    unfolding send_unlock
    sends-Attended m small = record {
      next = record w { mailbox = s.next; notices = w.notices + 1 };
      left = xs ++ (m ∷ []);
      returns = ap (λ r. r >>= unlocked w) s.returns;
      few = omega (arith, length-append xs (m ∷ []));
      holds = s.holds;
      alert = underway (omega arith);
    }
      where
        s : Sent true (xs ++ (m ∷ [])) (send_msg w.mailbox m)
        s = send_msg-Sent w.mailbox m xs h (omega arith)

    sends_all-Attended :
        (ms : List A)
        → length xs + length ms + hq_init_size < 2 ^ 31
        → Attended (length xs + length ms) (send_all_unlock w ms)
    unfolding send_all_unlock
    sends_all-Attended ms small = record {
      next = record w { mailbox = s.next; notices = w.notices + 1 };
      left = xs ++ ms;
      returns = ap (λ r. r >>= unlocked w) s.returns;
      few = omega (arith, length-append xs ms);
      holds = s.holds;
      alert = underway (omega arith);
    }
      where
        s : Sent (answer false ms) (xs ++ ms) (send_all w.mailbox ms)
        s = send_all-Sent ms w.mailbox xs h (omega arith)

    notifies-Attended : Attended (length xs) (done (if_underway w.notices w))
    unfolding notify_one
    notifies-Attended = pending w.notices
      where
        pending : (n : ℕ) → Attended (length xs) (done (if_underway n w))
        pending zero = stays
        pending (suc n) = record {
          next = notify_one w;
          left = xs;
          returns = refl;
          few = omega arith;
          holds = h;
          alert = ready refl;
        }

    if_free-Attended :
        (call : Outcome (Blocker A))
        → (w.blocked ≡ false → Attended (length xs) call)
        → Attended (length xs) (if_free w.blocked w call)
    if_free-Attended call free = by_state w.blocked refl
      where
        by_state : (b : Bool) → w.blocked ≡ b → Attended (length xs) (if_free b w call)
        by_state true e = stays
        by_state false e = free e

  waits-Attended :
      (w : Blocker A) (xs : List A) → Keeps w.mailbox xs → Attended (length xs) (wait_msg w)
  unfolding wait_msg
  waits-Attended w [] h = record {
    next = record w { blocked = true };
    left = [];
    returns = ap (λ r. r >>= waited w) (receive_msg-nil w.mailbox h);
    few = omega arith;
    holds = h;
    alert = empty refl;
  }
  waits-Attended w (x ∷ xs) h =
      let l = load_msg-cons w.mailbox x xs h in
      record {
        next = record w {
          mailbox = record { msg_queue = l.rest; current_msg = some x };
          blocked = false;
        };
        left = xs;
        returns = ap (λ r. r >>= waited w) (receive_msg-cons w.mailbox x xs l);
        few = omega arith;
        holds = l.holds;
        alert = ready refl;
      }

  waits_all-Attended :
      (w : Blocker A) (xs : List A)
      → Keeps w.mailbox xs
      → length xs < 2 ^ 31
      → Attended (length xs) (wait_all w)
  unfolding wait_all
  waits_all-Attended w [] h small = record {
    next = record w { blocked = true };
    left = [];
    returns = ap (λ r. r >>= waited w) (receive_all_turn-nil w.mailbox h);
    few = omega arith;
    holds = h;
    alert = empty refl;
  }
  waits_all-Attended w (x ∷ xs) h small =
      let d = receive_all_turn-Woken w.mailbox x xs h small in
      record {
        next = record w { mailbox = d.drained.rest; blocked = false };
        left = [];
        returns = ap (λ r. r >>= waited w) d.returns;
        few = omega arith;
        holds = d.drained.empty;
        alert = ready refl;
      }

  takes-Attended :
      (w : Blocker A) (xs : List A)
      → Keeps w.mailbox xs
      → w.blocked ≡ false
      → Attended (length xs) (receive_msg w.mailbox >>= taken w)
  takes-Attended w [] h free = record {
    next = w;
    left = [];
    returns = ap (λ r. r >>= taken w) (receive_msg-nil w.mailbox h);
    few = omega arith;
    holds = h;
    alert = ready free;
  }
  takes-Attended w (x ∷ xs) h free =
      let l = load_msg-cons w.mailbox x xs h in
      record {
        next = record w { mailbox = record { msg_queue = l.rest; current_msg = some x } };
        left = xs;
        returns = ap (λ r. r >>= taken w) (receive_msg-cons w.mailbox x xs l);
        few = omega arith;
        holds = l.holds;
        alert = ready free;
      }

  takes_all-Attended :
      (w : Blocker A) (xs : List A)
      → Keeps w.mailbox xs
      → length xs < 2 ^ 31
      → w.blocked ≡ false
      → Attended (length xs) (receive_all w.mailbox >>= taken w)
  takes_all-Attended w xs h small free =
      let d = receive_all-Drained w.mailbox xs h small in
      record {
        next = record w { mailbox = d.rest };
        left = [];
        returns = ap (λ r. r >>= taken w) d.returns;
        few = omega arith;
        holds = d.empty;
        alert = ready free;
      }

  move-Attended :
      (w : Blocker A) (xs : List A) (m : Move A)
      → Keeps w.mailbox xs
      → Alert w xs
      → length xs + cost m + hq_init_size < 2 ^ 31
      → Attended (length xs + cost m) (move w m)
  unfolding move
  move-Attended w xs (sends m) h a small = sends-Attended w xs h a m (omega arith)
  move-Attended w xs (sends_all ms) h a small = sends_all-Attended w xs h a ms small
  move-Attended w xs notifies h a small = weaken (omega arith) (notifies-Attended w xs h a)
  move-Attended w xs waits h a small = weaken (omega arith) (waits-Attended w xs h)
  move-Attended w xs waits_all h a small =
      weaken (omega arith) (waits_all-Attended w xs h (omega arith))
  move-Attended w xs takes h a small =
      weaken (omega arith) (if_free-Attended w xs h a _ (takes-Attended w xs h))
  move-Attended w xs takes_all h a small =
      weaken (omega arith) (if_free-Attended w xs h a _ (takes_all-Attended w xs h (omega arith)))

  run-Attended :
      (ms : List (Move A)) (w : Blocker A) (xs : List A)
      → Keeps w.mailbox xs
      → Alert w xs
      → length xs + sent_by ms + hq_init_size < 2 ^ 31
      → Attended (length xs + sent_by ms) (run w ms)
  unfolding run
  run-Attended [] w xs h a small = weaken (omega arith) (stays w xs h a)
  run-Attended (m ∷ ms) w xs h a small =
      let t = move-Attended w xs m h a (omega arith) in
      rw t.returns (
        weaken (omega (arith, t.few))
          (run-Attended ms t.next t.left t.holds t.alert (omega (arith, t.few))))

  arrive-mailbox : (n : ℕ) (w : Blocker A) → (arrive n w).mailbox ≡ w.mailbox
  unfolding arrive notify_one
  arrive-mailbox zero w = refl
  arrive-mailbox (suc n) w = arrive-mailbox n (notify_one w)

  arrive-free : (n : ℕ) (w : Blocker A) → w.blocked ≡ false → (arrive n w).blocked ≡ false
  unfolding arrive notify_one
  arrive-free zero w h = h
  arrive-free (suc n) w h = arrive-free n (notify_one w) refl

  arrive-woken : (n : ℕ) (w : Blocker A) → 1 ≤ n → (arrive n w).blocked ≡ false
  unfolding arrive notify_one
  arrive-woken zero w h = absurd (omega arith)
  arrive-woken (suc n) w h = arrive-free n (notify_one w) refl

  -- What the thread gets once the notifications that were on the way have arrived: nothing from an empty mailbox;
  -- or it is not blocked, and its turn takes the oldest message.
  pub data Served (w : Blocker A) : Type ℓ where
    idle : Keeps w.mailbox [] → Served w
    served :
        (x : A) (xs : List A) (b : Mailbox A)
        → Keeps w.mailbox (x ∷ xs)
        → (arrive w.notices w).blocked ≡ false
        → wait_msg (arrive w.notices w)
          ≡ done (record { mailbox = b; notices = (arrive w.notices w).notices; blocked = false })
        → b.current_msg ≡ some x
        → Keeps b xs
        → Served w

  pub record Ran (result : Outcome (Blocker A)) : Type ℓ where
    pub next : Blocker A
    pub returns : result ≡ done next
    pub serves : Served next

  alert-free :
      (w : Blocker A) (x : A) (xs : List A)
      → Alert w (x ∷ xs)
      → (arrive w.notices w).blocked ≡ false
  alert-free w x xs (empty e) = absurd (cons_ne_nil e)
    where
      cons_ne_nil : x ∷ xs ≢ []
      cons_ne_nil = cc
  alert-free w x xs (underway h) = arrive-woken w.notices w h
  alert-free w x xs (ready e) = arrive-free w.notices w e

  Attended-Served : (w : Blocker A) (xs : List A) → Keeps w.mailbox xs → Alert w xs → Served w
  unfolding wait_msg
  Attended-Served w [] h a = idle h
  Attended-Served w (x ∷ xs) h a =
      let l = load_msg-cons w.mailbox x xs h in
      served x xs (record { msg_queue = l.rest; current_msg = some x }) h (alert-free w x xs a)
        (ap (λ b. receive_msg b >>= waited (arrive w.notices w)) (arrive-mailbox w.notices w)
          ∙ ap (λ r. r >>= waited (arrive w.notices w)) (receive_msg-cons w.mailbox x xs l))
        refl l.holds

  -- No wake-up is lost. From a mailbox that holds `xs` and whose thread is on the alert, in whatever order the parts
  -- of the calls come, a notification always behind the unlocking of its call and others in between, they all
  -- return; and when the notifications on the way have arrived, either the mailbox is empty, or the thread is not
  -- blocked and its next turn takes the oldest message. `xs` and what is sent stay 50 below 2 ^ 31 messages.
  pub run-Served :
      (ms : List (Move A)) (w : Blocker A) (xs : List A)
      → Keeps w.mailbox xs
      → Alert w xs
      → length xs + sent_by ms + hq_init_size < 2 ^ 31
      → Ran (run w ms)
  run-Served ms w xs h a small =
      let t = run-Attended ms w xs h a small in
      record {
        next = t.next;
        returns = t.returns;
        serves = Attended-Served t.next t.left t.holds t.alert;
      }
