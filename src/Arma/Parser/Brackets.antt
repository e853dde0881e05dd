-- ===== src/Arma/Parser/Brackets.antt =====
-- The loop of the parser over an array in an array, at printed text.
use mathlib.Core.List.{append_assoc, append-nil}
use operation_front_line.Common.{
  ℕ, suc, ◌+◌, ◌<◌, ◌≡◌, ◌≢◌, refl, ap, sym, ◌∙◌, Bool, true, false, List, [], ◌∷◌, ◌++◌, ne→==,
  eq→==, arith,
}
use operation_front_line.Arma.{
  ad_array, ad_separator, ad_as_right, ad_as_left, ad_unit, ArmaData, array, has_data, Elements,
  Parse, ok,
}
use operation_front_line.Arma.Parser.{
  scalar, outer, opening, nested, go, nested_end, open_step, step, scan, push_back, with_type,
  then_next,
}
use operation_front_line.Arma.Parser.Scalars.{Each, IsQuotable, resume, scan-step, scan-go}

module _ {F : Type 0} (b : List ℕ → Parse (ArmaData F)) where
  -- A text that leaves the counters of brackets apart by what they were, so that the loop goes past it.
  abbrev pub Passes : List ℕ → Type 0
  Passes s =
      (k : ℕ) × ((text rest : List ℕ) (l r : ℕ) (els : Elements F)
        → r < l
        → scan b (nested text false l r els) (s ++ rest)
          ≡ scan b (nested (text ++ s) false (l + k) (r + k) els) rest)

  -- A loop that stands at other equal places.
  scan-nested :
      (text text' rest : List ℕ) (ignore : Bool) (l l' r r' : ℕ) (els : Elements F)
      → text ≡ text'
      → l ≡ l'
      → r ≡ r'
      → scan b (nested text ignore l r els) rest ≡ scan b (nested text' ignore l' r' els) rest
  scan-nested text text' rest ignore l l' r r' els e f g = rw (e, f, g) refl

  -- Around a text, one character on each side.
  around :
      (text s : List ℕ) (c d : ℕ) → text ++ (c ∷ []) ++ s ++ (d ∷ []) ≡ text ++ (c ∷ s ++ (d ∷ []))
  around text s c d =
      append_assoc (text ++ (c ∷ [])) s (d ∷ []) ∙ append_assoc text (c ∷ []) (s ++ (d ∷ []))

  pub Passes-nil : Passes []
  Passes-nil = (
    0,
    λ text rest l r els h.
        scan-nested text (text ++ []) rest false l (l + 0) r (r + 0) els (sym (append-nil text))
          (omega arith) (omega arith),
  )

  pub Passes-append : (s t : List ℕ) → Passes s → Passes t → Passes (s ++ t)
  Passes-append s t (k, h) (m, h') = (
    k + m,
    λ text rest l r els lt.
        ap (scan b (nested text false l r els)) (append_assoc s t rest)
        ∙ h text (t ++ rest) l r els lt
        ∙ h' (text ++ s) rest (l + k) (r + k) els (omega arith)
        ∙ scan-nested (text ++ s ++ t) (text ++ (s ++ t)) rest false _ _ _ _ els
            (append_assoc text s t) (omega arith) (omega arith),
  )

  -- A character that the loop counts nothing at.
  abbrev pub IsFree : ℕ → Type 0
  IsFree c = (c ≢ ad_unit) × ((c ≢ ad_as_left) × (c ≢ ad_as_right))

  pub Passes-char : (c : ℕ) → IsFree c → Passes (c ∷ [])
  Passes-char c (h, (h', h'')) = (
    0,
    λ text rest l r els lt.
        scan-go b (nested text false l r els) (nested (text ++ (c ∷ [])) false l r els) c rest
          (rw (ne→== h, ne→== h', ne→== h'', ne→== {a = l} {b = r} (omega arith)) refl)
        ∙ scan-nested (text ++ (c ∷ [])) _ rest false l (l + 0) r (r + 0) els refl (omega arith)
            (omega arith),
  )

  pub Passes-Each : (s : List ℕ) → Each IsFree s → Passes s
  Passes-Each [] h = Passes-nil
  Passes-Each (c ∷ s) (h, hs) = Passes-append (c ∷ []) s (Passes-char c h) (Passes-Each s hs)

  scan-ignored :
      (text s rest : List ℕ) (l r : ℕ) (els : Elements F)
      → Each IsQuotable s
      → scan b (nested text true l r els) (s ++ rest)
        ≡ scan b (nested (text ++ s) true l r els) rest
  scan-ignored text [] rest l r els h =
      scan-nested text _ rest true l l r r els (sym (append-nil text)) refl refl
  scan-ignored text (c ∷ s) rest l r els ((h, h'), hs) =
      scan-go b (nested text true l r els) (nested (text ++ (c ∷ [])) true l r els) c (s ++ rest)
        (rw (ne→== h') refl)
      ∙ scan-ignored (text ++ (c ∷ [])) s rest l r els hs
      ∙ scan-nested (text ++ (c ∷ []) ++ s) _ rest true l l r r els (append_assoc text (c ∷ []) s)
          refl refl

  pub Passes-quoted : (s : List ℕ) → Each IsQuotable s → Passes (ad_unit ∷ s ++ (ad_unit ∷ []))
  Passes-quoted s h = (
    0,
    λ text rest l r els lt.
        scan-go b (nested text false l r els) (nested (text ++ (ad_unit ∷ [])) true l r els) ad_unit
          (s ++ (ad_unit ∷ []) ++ rest) refl
        ∙ ap (scan b (nested (text ++ (ad_unit ∷ [])) true l r els))
            (append_assoc s (ad_unit ∷ []) rest)
        ∙ scan-ignored (text ++ (ad_unit ∷ [])) s (ad_unit ∷ rest) l r els h
        ∙ scan-go b (nested (text ++ (ad_unit ∷ []) ++ s) true l r els)
            (nested (text ++ (ad_unit ∷ []) ++ s ++ (ad_unit ∷ [])) false l r els) ad_unit rest
            (rw (ne→== {a = l} {b = r} (omega arith)) refl)
        ∙ scan-nested _ _ rest false l (l + 0) r (r + 0) els (around text s ad_unit ad_unit)
            (omega arith) (omega arith),
  )

  -- An array in brackets.
  pub Passes-brackets : (s : List ℕ) → Passes s → Passes (ad_as_left ∷ s ++ (ad_as_right ∷ []))
  Passes-brackets s (k, h) = (
    suc k,
    λ text rest l r els lt.
        scan-go b (nested text false l r els)
          (nested (text ++ (ad_as_left ∷ [])) false (suc l) r els) ad_as_left
          (s ++ (ad_as_right ∷ []) ++ rest) (rw (ne→== {a = suc l} {b = r} (omega arith)) refl)
        ∙ ap (scan b (nested (text ++ (ad_as_left ∷ [])) false (suc l) r els))
            (append_assoc s (ad_as_right ∷ []) rest)
        ∙ h (text ++ (ad_as_left ∷ [])) (ad_as_right ∷ rest) (suc l) r els (omega arith)
        ∙ scan-go b (nested (text ++ (ad_as_left ∷ []) ++ s) false (suc l + k) (r + k) els)
            (nested (text ++ (ad_as_left ∷ []) ++ s ++ (ad_as_right ∷ [])) false (suc l + k)
              (suc (r + k)) els)
            ad_as_right rest (rw (ne→== {a = suc l + k} {b = suc (r + k)} (omega arith)) refl)
        ∙ scan-nested _ _ rest false (suc l + k) (l + suc k) (suc (r + k)) (r + suc k) els
            (around text s ad_as_left ad_as_right) (omega arith) (omega arith),
  )

  module _ (els : Elements F) (s : List ℕ) (inner : Passes s) where
    -- The text of an array in an array.
    abbrev bracketed : List ℕ
    bracketed = ad_array ∷ ad_as_left ∷ s ++ (ad_as_right ∷ [])

    -- The loop counts to its end.
    scan-bracketed :
        (c : ℕ) (rest : List ℕ)
        → scan b (scalar [] false els) (ad_array ∷ ad_as_left ∷ s ++ ad_as_right ∷ c ∷ rest)
          ≡ resume b
              (then_next (with_type (b bracketed)) (λ e. nested_end b (push_back els e) (c ∷ rest)))
              (c ∷ rest)
    scan-bracketed c rest =
        scan-go b (scalar [] false els) (opening els) ad_array
          (ad_as_left ∷ s ++ ad_as_right ∷ c ∷ rest) refl
        ∙ scan-go b (opening els) (nested (ad_array ∷ ad_as_left ∷ []) false 1 0 els) ad_as_left
            (s ++ ad_as_right ∷ c ∷ rest) (opened s)
        ∙ inner.1 (ad_array ∷ ad_as_left ∷ []) (ad_as_right ∷ c ∷ rest) 1 0 els (omega arith)
        ∙ scan-step b (nested (ad_array ∷ ad_as_left ∷ s) false (1 + inner.0) (0 + inner.0) els)
            ad_as_right (c ∷ rest)
        ∙ ap (λ x. resume b x (c ∷ rest)) counted
      where
        counted :
            step b
              (nested (ad_array ∷ ad_as_left ∷ s) false (1 + inner.0) (0 + inner.0) els)
              ad_as_right
              (c ∷ rest)
            ≡ then_next (with_type (b bracketed)) (λ e. nested_end b (push_back els e) (c ∷ rest))
        counted = rw (eq→== {a = 1 + inner.0} {b = suc (0 + inner.0)} (omega arith)) refl

        opened :
            (t : List ℕ)
            → open_step b els ad_as_left (t ++ ad_as_right ∷ c ∷ rest)
              ≡ go (nested (ad_array ∷ ad_as_left ∷ []) false 1 0 els)
        opened [] = refl
        opened (x ∷ t) = refl

    module _ (e : ArmaData F) (built : b bracketed ≡ ok e) (full : has_data e ≡ true) where
      with_type-built : with_type (b bracketed) ≡ ok e
      with_type-built = rw (built, full) refl

      pub bracketed-separator :
          (c : ℕ) (rest : List ℕ)
          → c ≢ ad_as_right
          → scan b
              (scalar [] false els)
              (ad_array ∷ ad_as_left ∷ s ++ ad_as_right ∷ ad_separator ∷ c ∷ rest)
            ≡ scan b (outer (push_back els e)) (c ∷ rest)
      unfolding scan
      bracketed-separator c rest h =
          scan-bracketed ad_separator (c ∷ rest)
          ∙ ap
              (λ r.
                resume b
                  (then_next r (λ x. nested_end b (push_back els x) (ad_separator ∷ c ∷ rest)))
                  (ad_separator ∷ c ∷ rest))
              with_type-built
          ∙ rw (ne→== h) refl

      pub bracketed-right :
          scan b (scalar [] false els) (ad_array ∷ ad_as_left ∷ s ++ ad_as_right ∷ ad_as_right ∷ [])
          ≡ ok (array (push_back els e))
      unfolding scan
      bracketed-right =
          scan-bracketed ad_as_right []
          ∙ ap
              (λ r.
                resume b (then_next r (λ x. nested_end b (push_back els x) (ad_as_right ∷ [])))
                  (ad_as_right ∷ []))
              with_type-built
