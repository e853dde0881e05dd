-- ===== src/ThreadHive/Chain.antt =====
-- The registry as a list of handles, in the order in which they were added.
use mathlib.Core.Option.{some-injective}
use operation_front_line.Common.{
  ℕ, ◌≡◌, ◌≢◌, refl, ap, sym, ◌∙◌, ◌⊎◌, inl, inr, Option, none, some, List, [], ◌∷◌, length, arith,
  done,
}
use operation_front_line.ThreadHive.{ThreadHandle, Registry, update, deref, write}

abbrev pub last : List ℕ → Option ℕ
last [] = none
last (a ∷ []) = some a
last (a ∷ b ∷ ps) = last (b ∷ ps)

abbrev pub NotIn : ℕ → List ℕ → Type 0
NotIn p [] = Unit {0}
NotIn p (a ∷ ps) = (p ≢ a) × NotIn p ps

abbrev pub Distinct : List ℕ → Type 0
Distinct [] = Unit {0}
Distinct (a ∷ ps) = NotIn a ps × Distinct ps

pub last-NotIn : (p l : ℕ) (ps : List ℕ) → NotIn p ps → last ps ≡ some l → p ≢ l
last-NotIn p l [] h e = absurd (cc)
last-NotIn p l (a ∷ []) (ne, h) e = λ e'. ne (e' ∙ some-injective l a (sym e))
last-NotIn p l (a ∷ b ∷ ps) (ne, h) e = last-NotIn p l (b ∷ ps) h e

same_or_not : (p a : ℕ) → (p ≡ a) ⊎ (p ≢ a)
same_or_not p a = omega arith

module _ {A : Type 0} where
  -- A pointer leads along `next` through the handles at the addresses, and then to null.
  abbrev pub Linked : (ℕ → Option (ThreadHandle A)) → Option ℕ → List ℕ → Type 0
  Linked handles p [] = p ≡ none
  Linked handles p (a ∷ ps) =
      (h : ThreadHandle A) × (p ≡ some a) × (handles a ≡ some h) × Linked handles (h.next) ps

  -- The list of the handles of a registry.
  pub record Lists (r : Registry A) (ps : List ℕ) : Type 0 where
    pub counted : r.thread_count ≡ length ps
    pub linked : Linked (r.handles) (r.head) ps
    pub distinct : Distinct ps
    pub tail_at : r.tail ≡ last ps

  pub update-at :
      (handles : ℕ → Option (ThreadHandle A)) (p i : ℕ) (v : Option (ThreadHandle A))
      → i ≡ p
      → update handles p v i ≡ v
  update-at handles p i v e = ground arith

  pub update-off :
      (handles : ℕ → Option (ThreadHandle A)) (p i : ℕ) (v : Option (ThreadHandle A))
      → p ≢ i
      → update handles p v i ≡ handles i
  update-off handles p i v ne = ground arith

  pub deref_lem :
      (handles : ℕ → Option (ThreadHandle A)) (p : ℕ) (h : ThreadHandle A)
      → handles p ≡ some h
      → deref handles (some p) ≡ done h
  deref_lem handles p h e = rw (deref, e) refl

  pub write_lem :
      (handles : ℕ → Option (ThreadHandle A)) (p : ℕ) (h : ThreadHandle A)
      (f : ThreadHandle A → ThreadHandle A)
      → handles p ≡ some h
      → write handles (some p) f ≡ done (update handles p (some (f h)))
  write_lem handles p h f e = rw (write, e) refl

  -- What is written outside the list leaves it as it is.
  pub Linked_outside :
      (ps : List ℕ) (handles : ℕ → Option (ThreadHandle A)) (q : Option ℕ) (p : ℕ)
      (v : Option (ThreadHandle A))
      → NotIn p ps
      → Linked handles q ps
      → Linked (update handles p v) q ps
  Linked_outside [] handles q p v ni l = l
  Linked_outside (a ∷ ps) handles q p v (ne, ni) (h, e, at, l) =
      (h, e, update-off handles p a v ne ∙ at, Linked_outside ps handles (h.next) p v ni l)

  Linked_cons :
      (ps : List ℕ) (handles : ℕ → Option (ThreadHandle A)) (q : Option ℕ) (p a : ℕ)
      (h h' k : ThreadHandle A)
      → handles p ≡ some h
      → h'.next ≡ h.next
      → q ≡ some a
      → handles a ≡ some k
      → Linked (update handles p (some h')) (k.next) ps
      → Linked (update handles p (some h')) q (a ∷ ps)
  Linked_cons ps handles q p a h h' k at same e at' l = elim (same_or_not p a) [
    | inl e' ↦ (
      h',
      e,
      update-at handles p a (some h') (sym e'),
      rw (same ∙ ap (λ x. x.next) (some-injective h k (sym at ∙ ap handles e' ∙ at'))) l,
    )
    | inr ne ↦ (k, e, update-off handles p a (some h') ne ∙ at', l)
  ]

  -- So does what keeps the pointer to the next handle.
  pub Linked_inside :
      (ps : List ℕ) (handles : ℕ → Option (ThreadHandle A)) (q : Option ℕ) (p : ℕ)
      (h h' : ThreadHandle A)
      → handles p ≡ some h
      → h'.next ≡ h.next
      → Linked handles q ps
      → Linked (update handles p (some h')) q ps
  Linked_inside [] handles q p h h' at same l = l
  Linked_inside (a ∷ ps) handles q p h h' at same (k, e, at', l) =
      Linked_cons ps handles q p a h h' k at same e at'
        (Linked_inside ps handles (k.next) p h h' at same l)

  pub Lists-inside :
      (r : Registry A) (ps : List ℕ) (p : ℕ) (h h' : ThreadHandle A)
      → r.handles p ≡ some h
      → h'.next ≡ h.next
      → Lists r ps
      → Lists (record r { handles = update (r.handles) p (some h') }) ps
  Lists-inside r ps p h h' at same l = record {
    counted = l.counted;
    linked = Linked_inside ps (r.handles) (r.head) p h h' at same (l.linked);
    distinct = l.distinct;
    tail_at = l.tail_at;
  }
