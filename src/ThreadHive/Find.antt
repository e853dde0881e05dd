-- ===== src/ThreadHive/Find.antt =====
-- `ThreadHive<T>::getThreadHandle` on a list of handles.
use operation_front_line.Common.{
  ℕ, zero, suc, ◌<◌, ◌≡◌, refl, ap, sym, ◌∙◌, Bool, true, false, Option, none, some, List, [], ◌∷◌,
  if◌then◌else◌, length, arith, Outcome, done, ◌>>=◌,
}
use operation_front_line.ThreadHive.{
  ThreadHandle, Registry, same_text, find_handle, get_thread_handle,
}
use operation_front_line.ThreadHive.Chain.{Linked, Lists, deref_lem}

module _ {A : Type 0} where
  -- The first of the handles that has the name.
  abbrev pub first_named : (ℕ → Option (ThreadHandle A)) → List ℕ → List ℕ → Option ℕ
  first_named handles thread_name [] = none
  first_named handles thread_name (p ∷ ps) = elim (handles p) [
    | none ↦ none
    | some h ↦
        if same_text thread_name (h.thread_name) then some p else first_named handles thread_name ps
  ]

  module _ (fuel : ℕ) (handles : ℕ → Option (ThreadHandle A)) (thread_name : List ℕ) where
    -- A turn of the loop at a handle.
    abbrev turn : ℕ → Option ℕ → Bool → Outcome (Option ℕ)
    turn p next found = elim found [
      | true ↦ done (some p)
      | false ↦ find_handle fuel handles thread_name next
    ]

    find_handle-turn :
        (p : ℕ) (h : ThreadHandle A)
        → handles p ≡ some h
        → find_handle (suc fuel) handles thread_name (some p)
          ≡ turn p (h.next) (same_text thread_name (h.thread_name))
    unfolding find_handle
    find_handle-turn p h at =
        ap (λ o. o >>= (λ k. turn p (k.next) (same_text thread_name (k.thread_name))))
          (deref_lem handles p h at)

    turn-answer :
        (p : ℕ) (next rest : Option ℕ) (found : Bool)
        → find_handle fuel handles thread_name next ≡ done rest
        → turn p next found ≡ done (if found then some p else rest)
    turn-answer p next rest true h = refl
    turn-answer p next rest false h = h

    first_named-cons :
        (p : ℕ) (ps : List ℕ) (h : ThreadHandle A)
        → handles p ≡ some h
        → first_named handles thread_name (p ∷ ps) ≡ (
            if same_text thread_name (h.thread_name)
            then some p
            else first_named handles thread_name ps)
    first_named-cons p ps h at = rw (first_named, at) refl

  find_handle-first_named :
      (ps : List ℕ) (fuel : ℕ) (handles : ℕ → Option (ThreadHandle A)) (thread_name : List ℕ)
      (q : Option ℕ)
      → length ps < fuel
      → Linked handles q ps
      → find_handle fuel handles thread_name q ≡ done (first_named handles thread_name ps)
  unfolding find_handle
  find_handle-first_named ps zero handles thread_name q lt l = absurd (omega arith)
  find_handle-first_named [] (suc fuel) handles thread_name q lt l = rw l refl
  find_handle-first_named (p ∷ ps) (suc fuel) handles thread_name q lt (h, e, at, l) =
      ap (find_handle (suc fuel) handles thread_name) e
      ∙ find_handle-turn fuel handles thread_name p h at
      ∙ turn-answer fuel handles thread_name p (h.next) (first_named handles thread_name ps)
          (same_text thread_name (h.thread_name))
          (find_handle-first_named ps fuel handles thread_name (h.next) (omega arith) l)
      ∙ ap done (sym (first_named-cons fuel handles thread_name p ps h at))

  -- On a registry that lists handles, `getThreadHandle` comes to an end and answers the first of them with the
  -- name, or null where none has it.
  pub get_thread_handle-first_named :
      (r : Registry A) (ps thread_name : List ℕ)
      → Lists r ps
      → get_thread_handle r thread_name ≡ done (first_named (r.handles) thread_name ps)
  unfolding get_thread_handle
  get_thread_handle-first_named r ps thread_name l =
      find_handle-first_named ps (suc (r.thread_count)) (r.handles) thread_name (r.head)
        (omega (arith, l.counted)) (l.linked)
