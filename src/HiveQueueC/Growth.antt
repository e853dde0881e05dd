-- ===== src/HiveQueueC/Growth.antt =====
-- `HiveQueueC<T>::grow`: both copying loops end within their fuel, stay inside both arrays, and lay
-- the messages out from index 0 in their order.
use native.Mathlib.Nat.{add-zero, add-suc, suc-add}
use native.Mathlib.Numerals.{add-one}
use native.Mathlib.Decide.{dec_lt}
use mathlib.Core.Path.{subst, fun_ext}
use operation_front_line.Common.{
  ℕ, zero, suc, ◌+◌, ◌-◌, ◌≤◌, ◌<◌, ◌≡◌, List, get_elem?, length, u32, u32_mod, arith, refl, ap,
  ◌∙◌, Outcome, done,
}
use operation_front_line.HiveQueueC.{
  Buffer, HiveQueueC, new_array, update, copy_above, copy_below, relocate,
}
use operation_front_line.HiveQueueC.Invariant.{IsValid, Holds, slot}

-- `r` is `temp` with the `n` cells of `old` from `i` on written from `j` on.
pub record Copied {ℓ} {A : Type ℓ} (old temp : Buffer A) (i j n : ℕ) (r : Outcome (ℕ × Buffer A))
    : Type ℓ where
  pub copy : Buffer A
  pub returns : r ≡ done (j + n, copy)
  pub same_size : copy.size ≡ temp.size
  pub kept : (k : ℕ) → k < j → copy.cell k ≡ temp.cell k
  pub moved : (k : ℕ) → k < n → copy.cell (j + k) ≡ old.cell (i + k)

module _ {ℓ} {A : Type ℓ} where
  -- `temp` with the `i`-th cell of `old` written at `j`: what one round of either loop does.
  abbrev written : Buffer A → ℕ → Buffer A → ℕ → Buffer A
  written old i temp j = record { size = temp.size; cell = update temp.cell j (old.cell i) }

  Copied-next :
      (old : Buffer A) (i j n : ℕ) (temp : Buffer A) (r : Outcome (ℕ × Buffer A))
      → Copied old (written old i temp j) (i + 1) (j + 1) n r
      → Copied old temp i j (n + 1) r
  Copied-next old i j n temp r c = record {
    copy = c.copy;
    returns = c.returns ∙ ap (λ k. done (k, c.copy)) (omega arith);
    same_size = c.same_size;
    kept = λ k h. ground (arith, c.kept k);
    moved = moved;
  }
    where
      moved : (k : ℕ) → k < n + 1 → c.copy.cell (j + k) ≡ old.cell (i + k)
      moved zero h = rw (add-zero j, add-zero i) (ground (arith, c.kept j))
      moved (suc k) h =
          rw (add-suc j, add-suc i, ← suc-add j, ← suc-add i)
            (rw (add-one j, add-one i) at (c.moved k (omega arith)))

  Copied-none :
      (old : Buffer A) (i j n : ℕ) (temp : Buffer A)
      → n ≡ 0
      → Copied old temp i j n (done (j, temp))
  Copied-none old i j n temp e = record {
    copy = temp;
    returns = ap (λ k. done (k, temp)) (omega arith);
    same_size = refl;
    kept = λ k h. refl;
    moved = λ k h. absurd (omega arith);
  }

  copy_above-suc :
      (fuel : ℕ) (old : Buffer A) (limit i j : ℕ) (temp : Buffer A)
      → i < limit
      → limit ≤ old.size
      → limit < u32_mod
      → j < temp.size
      → temp.size < u32_mod
      → copy_above (suc fuel) old limit i j temp
        ≡ copy_above fuel old limit (i + 1) (j + 1) (written old i temp j)
  unfolding copy_above
  copy_above-suc fuel old limit i j temp h ho hl hj hw = ground arith

  copy_above-end :
      (fuel : ℕ) (old : Buffer A) (limit i j : ℕ) (temp : Buffer A)
      → limit ≤ i
      → copy_above (suc fuel) old limit i j temp ≡ done (j, temp)
  unfolding copy_above
  copy_above-end fuel old limit i j temp h = ground arith

  pub copy_above-Copied :
      (fuel : ℕ) (old : Buffer A) (limit i j : ℕ) (temp : Buffer A)
      → limit < i + fuel
      → i ≤ limit
      → limit ≤ old.size
      → limit < u32_mod
      → j + (limit - i) ≤ temp.size
      → temp.size < u32_mod
      → Copied old temp i j (limit - i) (copy_above fuel old limit i j temp)
  copy_above-Copied zero old limit i j temp hf hi ho hl ht hw = absurd (omega arith)
  copy_above-Copied (suc fuel) old limit i j temp hf hi ho hl ht hw = elim (dec_lt i limit) [
    | yes h ↦ rw (copy_above-suc fuel old limit i j temp h ho hl (omega arith) hw) (
        subst
          (λ n.
            Copied old temp i j n
              (copy_above fuel old limit (i + 1) (j + 1) (written old i temp j)))
          (omega arith)
          (Copied-next old i j (limit - (i + 1)) temp _ (
            copy_above-Copied fuel old limit (i + 1) (j + 1) (written old i temp j) (omega arith)
              (omega arith) ho hl (omega arith) hw)))
    | no h ↦
        rw (copy_above-end fuel old limit i j temp (omega arith))
          (Copied-none old i j (limit - i) temp (omega arith))
  ]

  copy_below-eq-copy_above :
      (fuel : ℕ) (old : Buffer A) (limit i j : ℕ) (temp : Buffer A)
      → i ≤ limit
      → limit < u32_mod
      → copy_below fuel old limit i j temp ≡ copy_above fuel old limit i j temp
  unfolding copy_below copy_above
  copy_below-eq-copy_above zero old limit i j temp h hl = refl
  copy_below-eq-copy_above (suc fuel) old limit i j temp h hl = elim (dec_lt i limit) [
    | yes p ↦
        rw
          (fun_ext (λ t.
            copy_below-eq-copy_above fuel old limit (u32 (i + 1)) (u32 (j + 1)) t (ground arith)
              hl))
          (ground arith)
    | no p ↦ ground arith
  ]

-- `r` is the queue after a relocation into an array of `n` cells.
pub record Grown {ℓ} {A : Type ℓ} (q : HiveQueueC A) (xs : List A) (n : ℕ)
    (r : Outcome (HiveQueueC A)) : Type ℓ where
  pub grown : HiveQueueC A
  pub returns : r ≡ done grown
  pub holds : Holds grown xs
  pub new_size : grown.a_size ≡ n

module _ {ℓ} {A : Type ℓ} (q : HiveQueueC A) (xs : List A) (n : ℕ) (h : Holds q xs)
    (full : q.count ≡ q.a_size) (larger : q.a_size < n) (word : n < u32_mod) where
  open q use {a_size, tail, head, queue}

  above :
      Copied queue
        (new_array n)
        head
        0
        (a_size - head)
        (copy_above (suc a_size) queue a_size head 0 (new_array n))
  above =
      let v : IsValid q = h.valid in
      copy_above-Copied (suc a_size) queue a_size head 0 (new_array n) (omega arith) (omega arith)
        (omega arith) (omega arith) (omega arith) word

  full_tail : tail ≡ head
  full_tail = let v : IsValid q = h.valid in ground (arith, v.tail_at)

  below :
      Copied queue above.copy 0
        (0 + (a_size - head))
        tail
        (copy_below (suc tail) queue tail 0 (0 + (a_size - head)) above.copy)
  below =
      let v : IsValid q = h.valid in
      rw
        (copy_below-eq-copy_above (suc tail) queue tail 0 (0 + (a_size - head)) above.copy
          (omega arith) (omega (arith, full_tail)))
        (subst
          (λ m.
            Copied queue above.copy 0 (0 + (a_size - head)) m
              (copy_above (suc tail) queue tail 0 (0 + (a_size - head)) above.copy))
          {x = tail - 0} (omega arith)
          (copy_above-Copied (suc tail) queue tail 0 (0 + (a_size - head)) above.copy (omega arith)
            (omega arith) (omega (arith, full_tail)) (omega (arith, full_tail))
            (omega (arith, full_tail, above.same_size)) (omega (arith, above.same_size))))

  abbrev after : HiveQueueC A
  after = record {
    count = q.count;
    a_size = n;
    tail = 0 + (a_size - head) + tail;
    head = 0;
    queue = below.copy;
  }

  relocate-eq : relocate q n ≡ done after
  unfolding relocate
  relocate-eq = ground (arith, above.returns, below.returns, full_tail)

  after-IsValid : IsValid after
  after-IsValid =
      let v : IsValid q = h.valid in ground (arith, full_tail, above.same_size, below.same_size)

  after-slots : (k : ℕ) → k < length xs → slot after k ≡ get_elem? xs k
  after-slots k lt = elim (dec_lt k (a_size - head)) [
    | yes p ↦
        ap below.copy.cell (ground (arith, h.counted, h.valid.count_in))
        ∙ below.kept k (omega arith)
        ∙ ap above.copy.cell (omega arith)
        ∙ above.moved k p
        ∙ ap queue.cell (ground arith)
        ∙ h.slots k lt
    | no p ↦
        let m = k - (a_size - head) in
        ap below.copy.cell (ground (arith, h.counted, h.valid.count_in))
        ∙ below.moved m (omega (arith, h.counted, h.valid.count_in, h.valid.head_in, full_tail))
        ∙ ap queue.cell (ground (arith, h.valid.head_in))
        ∙ h.slots k lt
  ]

  pub relocate-Grown : Grown q xs n (relocate q n)
  relocate-Grown = record {
    grown = after;
    returns = relocate-eq;
    holds = record { valid = after-IsValid; counted = h.counted; slots = after-slots };
    new_size = refl;
  }
