-- ===== src/Arma/Parser/Scalars.antt =====
-- The loop of the parser over an element that is no array, at printed text.
use mathlib.Core.List.{append_assoc, append-nil}
use operation_front_line.Common.{
  ℕ, ◌≡◌, ◌≢◌, refl, ap, sym, ◌∙◌, ◌⊎◌, Bool, true, false, List, [], ◌∷◌, ◌++◌, ne→==,
}
use operation_front_line.Arma.{
  ad_array, ad_separator, ad_as_right, ad_as_left, ad_unit, ad_string, ArmaData, Elements, Parse,
  ok, has_data, array,
}
use operation_front_line.Arma.Parser.{
  State, scalar, outer, Next, stop, go, scalar_next, scalar_step, step, scan, push_back, with_type,
  then_next, after_separator, after_right,
}

-- Every character of a text.
abbrev pub Each : (ℕ → Type 0) → List ℕ → Type 0
Each P [] = Unit {0}
Each P (c ∷ s) = P c × Each P s

-- What may stand in a string of an array, and in any other element but an array.
abbrev pub IsQuotable : ℕ → Type 0
IsQuotable c = (c ≢ ad_array) × (c ≢ ad_unit)

abbrev pub IsPlain : ℕ → Type 0
IsPlain c = IsQuotable c × ((c ≢ ad_separator) × ((c ≢ ad_as_right) × (c ≢ ad_as_left)))

-- What ends an element.
abbrev pub IsEnd : ℕ → Type 0
IsEnd d = (d ≡ ad_separator) ⊎ (d ≡ ad_as_right)

module _ {F : Type 0} (b : List ℕ → Parse (ArmaData F)) where
  abbrev pub resume : Next F → List ℕ → Parse (ArmaData F)
  resume (stop r) rest = r
  resume (go st) rest = scan b st rest

  pub scan-step :
      (st : State F) (c : ℕ) (rest : List ℕ) → scan b st (c ∷ rest) ≡ resume (step b st c rest) rest
  unfolding scan
  scan-step st c rest =
      elim (step b st c rest)
        as (λ x. (elim x [ stop r ↦ r | go st' ↦ scan b st' rest ]) ≡ resume x rest) [
          | stop r ↦ refl
          | go st' ↦ refl
        ]

  pub scan-go :
      (st st' : State F) (c : ℕ) (rest : List ℕ)
      → step b st c rest ≡ go st'
      → scan b st (c ∷ rest) ≡ scan b st' rest
  scan-go st st' c rest e = scan-step st c rest ∙ ap (λ x. resume x rest) e

  module _ (els : Elements F) where
    scalar_step-char :
        (text : List ℕ) (ignore : Bool) (c : ℕ) (rest : List ℕ)
        → IsQuotable c
        → scalar_step b text ignore els c rest ≡ scalar_next b (text ++ (c ∷ [])) ignore els rest
    scalar_step-char text ignore c rest (h, k) = rw (ne→== h, ne→== k) refl

    scalar_next-char :
        (text : List ℕ) (c : ℕ) (rest : List ℕ)
        → IsPlain c
        → scalar_next b text false els (c ∷ rest) ≡ go (scalar text false els)
    scalar_next-char text c rest (q, (h, (k, l))) = rw (ne→== h, ne→== k) refl

    -- Past a text with nothing special in it, the element ends at a separator or a bracket.
    pub scan-plain :
        (text : List ℕ) (c : ℕ) (s : List ℕ) (d : ℕ) (rest : List ℕ)
        → Each IsPlain (c ∷ s)
        → scan b (scalar text false els) (c ∷ s ++ d ∷ rest)
          ≡ resume (scalar_next b (text ++ c ∷ s) false els (d ∷ rest)) (d ∷ rest)
    scan-plain text c [] d rest h =
        scan-step (scalar text false els) c (d ∷ rest)
        ∙ ap (λ x. resume x (d ∷ rest)) (scalar_step-char text false c (d ∷ rest) (h.0.0))
    scan-plain text c (c' ∷ s) d rest (h, (h', hs)) =
        scan-go (scalar text false els) (scalar (text ++ (c ∷ [])) false els) c (c' ∷ s ++ d ∷ rest)
          (scalar_step-char text false c (c' ∷ s ++ d ∷ rest) (h.0)
            ∙ scalar_next-char (text ++ (c ∷ [])) c' (s ++ d ∷ rest) h')
        ∙ scan-plain (text ++ (c ∷ [])) c' s d rest (h', hs)
        ∙ ap (λ t. resume (scalar_next b t false els (d ∷ rest)) (d ∷ rest))
            (append_assoc text (c ∷ []) (c' ∷ s))

    quoted_next :
        (t s : List ℕ) (d : ℕ) (rest : List ℕ)
        → scalar_next b t true els (s ++ d ∷ rest) ≡ go (scalar t true els)
    quoted_next t [] d rest = refl
    quoted_next t (c ∷ s) d rest = refl

    -- Past a text in quotes.
    scan-quoted :
        (text s : List ℕ) (d : ℕ) (rest : List ℕ)
        → Each IsQuotable s
        → scan b (scalar text true els) (s ++ d ∷ rest)
          ≡ scan b (scalar (text ++ s) true els) (d ∷ rest)
    scan-quoted text [] d rest h =
        ap (λ t. scan b (scalar t true els) (d ∷ rest)) (sym (append-nil text))
    scan-quoted text (c ∷ s) d rest (h, hs) =
        scan-go (scalar text true els) (scalar (text ++ (c ∷ [])) true els) c (s ++ d ∷ rest)
          (scalar_step-char text true c (s ++ d ∷ rest) h ∙ quoted_next (text ++ (c ∷ [])) s d rest)
        ∙ scan-quoted (text ++ (c ∷ [])) s d rest hs
        ∙ ap (λ t. scan b (scalar t true els) (d ∷ rest)) (append_assoc text (c ∷ []) s)

    -- Into a string, up to a character in it.
    pub scan-string_open :
        (s : List ℕ) (d : ℕ) (rest : List ℕ)
        → Each IsQuotable s
        → scan b (scalar [] false els) (ad_string ∷ ad_unit ∷ s ++ d ∷ rest)
          ≡ scan b (scalar (ad_string ∷ s) true els) (d ∷ rest)
    scan-string_open s d rest h =
        scan-go (scalar [] false els) (scalar (ad_string ∷ []) false els) ad_string
          (ad_unit ∷ s ++ d ∷ rest) refl
        ∙ scan-go (scalar (ad_string ∷ []) false els) (scalar (ad_string ∷ []) true els) ad_unit
            (s ++ d ∷ rest) (quoted_next (ad_string ∷ []) s d rest)
        ∙ scan-quoted (ad_string ∷ []) s d rest h

    -- A string in front of the end of an element.
    pub scan-string :
        (s : List ℕ) (d : ℕ) (rest : List ℕ)
        → Each IsQuotable s
        → scan b (scalar [] false els) (ad_string ∷ ad_unit ∷ s ++ ad_unit ∷ d ∷ rest)
          ≡ resume (scalar_next b (ad_string ∷ s) false els (d ∷ rest)) (d ∷ rest)
    scan-string s d rest h =
        scan-string_open s ad_unit (d ∷ rest) h
        ∙ scan-step (scalar (ad_string ∷ s) true els) ad_unit (d ∷ rest)

    -- The end of an element that its text builds.
    module _ (text : List ℕ) (e : ArmaData F) (built : b text ≡ ok e)
        (full : has_data e ≡ true) where
      with_type-built : with_type (b text) ≡ ok e
      with_type-built = rw (built, full) refl

      pub at_separator :
          (c : ℕ) (rest : List ℕ)
          → resume
              (scalar_next b text false els (ad_separator ∷ c ∷ rest))
              (ad_separator ∷ c ∷ rest)
            ≡ scan b (outer (push_back els e)) (c ∷ rest)
      unfolding scan
      at_separator c rest =
          ap
            (λ r.
              resume (then_next r (λ x. after_separator b (push_back els x) (c ∷ rest)))
                (ad_separator ∷ c ∷ rest))
            with_type-built

      pub at_right :
          resume (scalar_next b text false els (ad_as_right ∷ [])) (ad_as_right ∷ [])
          ≡ ok (array (push_back els e))
      at_right =
          ap
            (λ r. resume (then_next r (λ x. after_right b (push_back els x) [])) (ad_as_right ∷ []))
            with_type-built
