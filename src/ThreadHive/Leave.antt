-- ===== src/ThreadHive/Leave.antt =====
-- The loop of `~ThreadHive<T>` to the handle that goes out of the list.
use operation_front_line.Common.{
  ℕ, zero, suc, ◌<◌, ◌≡◌, ◌≢◌, refl, ap, sym, ◌∙◌, Option, some, List, [], ◌∷◌, ◌++◌, ne→==, eq→==,
  length, length-append, arith, Outcome, done,
}
use operation_front_line.ThreadHive.{ThreadHandle, update, set_next}
use operation_front_line.ThreadHive.Destructor.{find_mine}
use operation_front_line.ThreadHive.Chain.{
  last, last-NotIn, NotIn, Distinct, Linked, update-at, update-off, deref_lem, Linked_outside,
}

-- A list whose middle element goes out.
pub NotIn-middle :
    (p : ℕ) (ps : List ℕ) (m : ℕ) (qs : List ℕ)
    → NotIn p (ps ++ m ∷ qs)
    → (p ≢ m) × NotIn p (ps ++ qs)
NotIn-middle p [] m qs (ne, h) = (ne, h)
NotIn-middle p (a ∷ ps) m qs (ne, h) = let (ne', h') = NotIn-middle p ps m qs h in (ne', (ne, h'))

pub Distinct-middle :
    (ps : List ℕ) (m : ℕ) (qs : List ℕ)
    → Distinct (ps ++ m ∷ qs)
    → NotIn m (ps ++ qs) × Distinct (ps ++ qs)
Distinct-middle [] m qs (n, d) = (n, d)
Distinct-middle (a ∷ ps) m qs (n, d) =
    let (n', d') = Distinct-middle ps m qs d in
    let (ne, h) = NotIn-middle a ps m qs n in (((λ e. ne (sym e)), n'), (h, d'))

pub NotIn-front : (p : ℕ) (ps qs : List ℕ) → NotIn p (ps ++ qs) → NotIn p ps
NotIn-front p [] qs h = tt
NotIn-front p (a ∷ ps) qs (ne, h) = (ne, NotIn-front p ps qs h)

pub NotIn-back : (p : ℕ) (ps qs : List ℕ) → NotIn p (ps ++ qs) → NotIn p qs
NotIn-back p [] qs h = h
NotIn-back p (a ∷ ps) qs (ne, h) = NotIn-back p ps qs h

pub length_middle :
    (ps : List ℕ) (m : ℕ) (qs : List ℕ) → length (ps ++ m ∷ qs) ≡ suc (length (ps ++ qs))
length_middle ps m qs = omega (arith, length-append ps (m ∷ qs), length-append ps qs)

module _ {A : Type 0} where
  -- The loop stops with `temp` at the handle in front.
  pub record Found (handles : ℕ → Option (ThreadHandle A)) (q : Option ℕ) (ps : List ℕ) (m : ℕ)
      (qs : List ℕ) (result : Outcome (Option ℕ × Option ℕ)) : Type 0 where
    pub before : ℕ
    pub before_handle : ThreadHandle A
    pub mine_handle : ThreadHandle A
    pub returns : result ≡ done (some before, some m)
    pub before_at : handles before ≡ some before_handle
    pub before_next : before_handle.next ≡ some m
    pub mine_at : handles m ≡ some mine_handle
    pub last_before : last ps ≡ some before
    -- The list with the pointer of the handle in front past the one that goes out.
    pub linked :
        Linked
          (update handles before (some (set_next (mine_handle.next) before_handle)))
          q
          (ps ++ qs)

  find_mine-stop :
      (fuel : ℕ) (handles : ℕ → Option (ThreadHandle A)) (m : ℕ) (temp : Option ℕ)
      → find_mine (suc fuel) handles m temp (some m) ≡ done (temp, some m)
  unfolding find_mine
  find_mine-stop fuel handles m temp = rw (eq→== {a = m} {b = m} refl) refl

  find_mine-step :
      (fuel : ℕ) (handles : ℕ → Option (ThreadHandle A)) (m t c : ℕ) (h k : ThreadHandle A)
      → m ≢ c
      → handles t ≡ some h
      → handles c ≡ some k
      → find_mine (suc fuel) handles m (some t) (some c)
        ≡ find_mine fuel handles m (h.next) (k.next)
  unfolding find_mine
  find_mine-step fuel handles m t c h k ne at at' =
      rw (ne→== ne, deref_lem handles c k at', deref_lem handles t h at) refl

  pub find_mine-Found :
      (a : ℕ) (ps : List ℕ) (m : ℕ) (qs : List ℕ) (fuel : ℕ) (handles : ℕ → Option (ThreadHandle A))
      (q : Option ℕ) (h : ThreadHandle A)
      → length ps < fuel
      → Distinct (a ∷ ps ++ m ∷ qs)
      → q ≡ some a
      → handles a ≡ some h
      → Linked handles (h.next) (ps ++ m ∷ qs)
      → Found handles q (a ∷ ps) m qs (find_mine fuel handles m (some a) (h.next))
  find_mine-Found a ps m qs zero handles q h lt d e at l = absurd (omega arith)
  find_mine-Found a [] m qs (suc fuel) handles q h lt ((n, na), (nm, d)) e at (k, e', at', l) =
      record {
        before = a;
        before_handle = h;
        mine_handle = k;
        returns =
            ap (find_mine (suc fuel) handles m (some a)) e'
            ∙ find_mine-stop fuel handles m (some a);
        before_at = at;
        before_next = e';
        mine_at = at';
        last_before = refl;
        linked = (
          set_next (k.next) h,
          e,
          update-at handles a a _ refl,
          Linked_outside qs handles (k.next) a _ na l,
        );
      }
  find_mine-Found a (b ∷ ps) m qs (suc fuel) handles q h lt ((ne, n), (nb, d)) e at
        (k, e', at', l) =
      let found =
        find_mine-Found b ps m qs fuel handles (h.next) k (omega arith) (nb, d) e' at' l in
      record {
        before = found.before;
        before_handle = found.before_handle;
        mine_handle = found.mine_handle;
        returns =
            ap (find_mine (suc fuel) handles m (some a)) e'
            ∙ find_mine-step fuel handles m a b h k (λ e''. (NotIn-middle b ps m qs nb).0 (sym e''))
                at at'
            ∙ ap (λ t. find_mine fuel handles m t (k.next)) e'
            ∙ found.returns;
        before_at = found.before_at;
        before_next = found.before_next;
        mine_at = found.mine_at;
        last_before = found.last_before;
        linked = (
          h,
          e,
          update-off handles (found.before) a _ (λ e''.
                last-NotIn a (found.before) (b ∷ ps) (ne, NotIn-front a ps (m ∷ qs) n)
                  (found.last_before) (sym e''))
              ∙ at,
          found.linked,
        );
      }
