-- ===== src/Arma/Parser/TypedLoops.antt =====
-- The loops of the parser put data together that is well typed: no string is empty, every number is of its
-- type, and every element of an array, at any depth, has data.
use operation_front_line.Common.{
  ℕ, suc, ◌^◌, ◌<◌, ◌≡◌, ◌≢◌, refl, ◌⊎◌, inl, inr, Bool, true, false, not, List, [], ◌∷◌, ◌++◌,
  if_holds, ◌==◌, if◌then◌else◌,
}
use operation_front_line.Arma.{
  ad_array, ad_separator, ad_as_right, ad_as_left, ad_unit, ArmaData, null, string, float, unsigned,
  signed, address, array, has_data, Elements, nil, cons, parse_error_type, parse_error_expected,
  parse_error_end, Parse, ok, terminates, throws, undefined, exhausted, Platform,
}
use operation_front_line.Arma.Numbers.RoundTrip.{FitsSigned}
use operation_front_line.Arma.Numbers.Range.{Answers}
use operation_front_line.Arma.Parser.{
  push_back, State, outer, scalar, opening, nested, passing, Next, stop, go, then_next, with_type,
  after_separator, after_right, scalar_next, scalar_step, nested_end, nested_count, nested_next,
  open_step, step, at_end, scan, build_array,
}
use operation_front_line.Arma.Printer.Printable.{FitsPointer}

module _ {F : Type 0} (platform : Platform F) where
  abbrev mutual
    pub IsTyped : ArmaData F → Type 0
    IsTyped null = ⊥
    IsTyped (string s) = s ≢ []
    IsTyped (float f p) = p < 2 ^ 16
    IsTyped (unsigned n) = n < 2 ^ 64
    IsTyped (signed z) = FitsSigned z
    IsTyped (address a) = FitsPointer platform a
    IsTyped (array els) = AllTyped els

    pub AllTyped : Elements F → Type 0
    AllTyped nil = Unit {0}
    AllTyped (cons e els) = IsTyped e × AllTyped els

  -- Data, or none.
  abbrev pub IsWellTyped : ArmaData F → Type 0
  IsWellTyped e = (e ≡ null) ⊎ IsTyped e

  push_back-AllTyped :
      (els : Elements F) (e : ArmaData F) → AllTyped els → IsTyped e → AllTyped (push_back els e)
  unfolding push_back
  push_back-AllTyped nil e hs h = (h, tt)
  push_back-AllTyped (cons d els) e (h', hs) h = (h', push_back-AllTyped els e hs h)

  -- The elements so far are typed, in whatever loop.
  abbrev HoldsTyped : State F → Type 0
  HoldsTyped (outer els) = AllTyped els
  HoldsTyped (scalar text ignore els) = AllTyped els
  HoldsTyped (opening els) = AllTyped els
  HoldsTyped (nested text ignore l r els) = AllTyped els
  HoldsTyped (passing st) = HoldsTyped st

  abbrev GoesTyped : Next F → Type 0
  GoesTyped (stop r) = Answers IsWellTyped r
  GoesTyped (go st) = HoldsTyped st

  with_type-IsTyped :
      (r : Parse (ArmaData F)) → Answers IsWellTyped r → Answers IsTyped (with_type r)
  with_type-IsTyped (ok e) (inl h) = rw h tt
  with_type-IsTyped (ok e) (inr h) =
      if_holds (Answers IsTyped) (has_data e) (ok e) (terminates parse_error_type) h tt
  with_type-IsTyped (terminates e) h = tt
  with_type-IsTyped throws h = tt
  with_type-IsTyped undefined h = tt
  with_type-IsTyped exhausted h = tt

  then_next-GoesTyped :
      (r : Parse (ArmaData F)) (f : ArmaData F → Next F)
      → Answers IsTyped r
      → ((e : ArmaData F) → IsTyped e → GoesTyped (f e))
      → GoesTyped (then_next r f)
  then_next-GoesTyped (ok e) f h k = k e h
  then_next-GoesTyped (terminates e) f h k = tt
  then_next-GoesTyped throws f h k = tt
  then_next-GoesTyped undefined f h k = tt
  then_next-GoesTyped exhausted f h k = tt

  module _ (b : List ℕ → Parse (ArmaData F))
      (typed : (text : List ℕ) → Answers IsWellTyped (b text)) where
    -- An element joins the others.
    joined :
        (text : List ℕ) (els : Elements F) (f : Elements F → Next F)
        → AllTyped els
        → ((els' : Elements F) → AllTyped els' → GoesTyped (f els'))
        → GoesTyped (then_next (with_type (b text)) (λ e. f (push_back els e)))
    joined text els f hs k =
        then_next-GoesTyped (with_type (b text)) (λ e. f (push_back els e))
          (with_type-IsTyped (b text) (typed text))
          (λ e h. k (push_back els e) (push_back-AllTyped els e hs h))

    after_separator-GoesTyped :
        (rest : List ℕ) (els : Elements F) → AllTyped els → GoesTyped (after_separator b els rest)
    after_separator-GoesTyped [] els h = tt
    after_separator-GoesTyped (d ∷ rest) els h = h

    after_right-GoesTyped :
        (rest : List ℕ) (els : Elements F) → AllTyped els → GoesTyped (after_right b els rest)
    after_right-GoesTyped [] els h = inr h
    after_right-GoesTyped (d ∷ rest) els h = tt

    nested_end-GoesTyped :
        (rest : List ℕ) (els : Elements F) → AllTyped els → GoesTyped (nested_end b els rest)
    nested_end-GoesTyped [] els h = tt
    nested_end-GoesTyped (d ∷ []) els h =
        if_holds GoesTyped (d == ad_as_right) (go (passing (outer els)))
          (stop (terminates parse_error_expected)) h tt
    nested_end-GoesTyped (d ∷ d' ∷ rest) els h =
        if_holds GoesTyped (d == ad_as_right) (stop (terminates parse_error_end)) _ tt (
          if_holds GoesTyped (d' == ad_as_right) (stop (terminates parse_error_expected))
            (go (passing (outer els))) tt h)

    scalar_next-GoesTyped :
        (text : List ℕ) (ignore : Bool) (els : Elements F) (rest : List ℕ)
        → AllTyped els
        → GoesTyped (scalar_next b text ignore els rest)
    scalar_next-GoesTyped text true els [] h = tt
    scalar_next-GoesTyped text true els (d ∷ rest) h = h
    scalar_next-GoesTyped text false els [] h = tt
    scalar_next-GoesTyped text false els (d ∷ rest) h =
        if_holds GoesTyped (d == ad_separator) _ _
          (joined text els (λ els'. after_separator b els' rest) h (after_separator-GoesTyped rest))
          (if_holds GoesTyped (d == ad_as_right) _ (go (scalar text false els))
            (joined text els (λ els'. after_right b els' rest) h (after_right-GoesTyped rest)) h)

    scalar_step-GoesTyped :
        (text : List ℕ) (ignore : Bool) (els : Elements F) (c : ℕ) (rest : List ℕ)
        → AllTyped els
        → GoesTyped (scalar_step b text ignore els c rest)
    scalar_step-GoesTyped text ignore els c rest h =
        if_holds GoesTyped (c == ad_array) (go (opening els)) _ h (
          if_holds GoesTyped (c == ad_unit) _ _ (scalar_next-GoesTyped text (not ignore) els rest h)
            (scalar_next-GoesTyped (text ++ (c ∷ [])) ignore els rest h))

    nested_next-GoesTyped :
        (text : List ℕ) (ignore : Bool) (l r : ℕ) (els : Elements F) (c : ℕ) (rest : List ℕ)
        → AllTyped els
        → GoesTyped (nested_next b text ignore l r els c rest)
    nested_next-GoesTyped text true l r els c rest h = h
    nested_next-GoesTyped text false l r els c rest h =
        counted (if c == ad_as_left then suc l else l) (if c == ad_as_right then suc r else r)
      where
        counted : (l' r' : ℕ) → GoesTyped (nested_count b text l' r' els rest)
        counted l' r' =
            if_holds GoesTyped (l' == r') _ (go (nested text false l' r' els))
              (joined text els (λ els'. nested_end b els' rest) h (nested_end-GoesTyped rest)) h

    open_step-GoesTyped :
        (els : Elements F) (c : ℕ) (rest : List ℕ)
        → AllTyped els
        → GoesTyped (open_step b els c rest)
    open_step-GoesTyped els c [] h = tt
    open_step-GoesTyped els c (d ∷ rest) h =
        if_holds GoesTyped (c == ad_as_left) (go (nested (ad_array ∷ c ∷ []) false 1 0 els))
          (stop (terminates parse_error_expected)) h tt

    step-GoesTyped :
        (st : State F) (c : ℕ) (rest : List ℕ) → HoldsTyped st → GoesTyped (step b st c rest)
    step-GoesTyped (outer els) c rest h = scalar_step-GoesTyped [] false els c rest h
    step-GoesTyped (scalar text ignore els) c rest h =
        scalar_step-GoesTyped text ignore els c rest h
    step-GoesTyped (opening els) c rest h = open_step-GoesTyped els c rest h
    step-GoesTyped (nested text ignore l r els) c rest h =
        nested_next-GoesTyped (text ++ (c ∷ [])) (if c == ad_unit then not ignore else ignore) l r
          els c rest h
    step-GoesTyped (passing st) c rest h = h

    at_end-Answers : (st : State F) → HoldsTyped st → Answers IsWellTyped (at_end b st)
    at_end-Answers (outer els) h = inr h
    at_end-Answers (scalar text ignore els) h = tt
    at_end-Answers (opening els) h = tt
    at_end-Answers (nested text ignore l r els) h = tt
    at_end-Answers (passing st) h = tt

    next-Answers :
        (rest : List ℕ) (x : Next F)
        → GoesTyped x
        → ((st : State F) → HoldsTyped st → Answers IsWellTyped (scan b st rest))
        → Answers IsWellTyped (elim x [ stop r ↦ r | go st' ↦ scan b st' rest ])
    next-Answers rest (stop r) h k = h
    next-Answers rest (go st) h k = k st h

    scan-Answers : (s : List ℕ) (st : State F) → HoldsTyped st → Answers IsWellTyped (scan b st s)
    unfolding scan
    scan-Answers [] st h = at_end-Answers st h
    scan-Answers (c ∷ rest) st h =
        next-Answers rest (step b st c rest) (step-GoesTyped st c rest h) (scan-Answers rest)

    pub build_array-Answers : (text : List ℕ) → Answers IsWellTyped (build_array b text)
    build_array-Answers [] = inl refl
    build_array-Answers (c ∷ rest) =
        if_holds (Answers IsWellTyped) (c == ad_as_left) (scan b (outer nil) rest) (ok null)
          (scan-Answers rest (outer nil) tt) (inl refl)
