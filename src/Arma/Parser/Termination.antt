-- ===== src/Arma/Parser/Termination.antt =====
-- The parser comes to an end: its loops pass over a character each time, and the text of an element is
-- shorter than the array that it stands in.
use operation_front_line.Common.{
  ℕ, zero, suc, ◌+◌, ◌≤◌, ◌<◌, ◌≢◌, refl, Bool, true, false, not, Option, none, some, List, [], ◌∷◌,
  ◌++◌, length, length-append, if_holds, ◌==◌, if◌then◌else◌, arith,
}
use operation_front_line.Arma.{
  ad_separator, ad_as_left, ad_as_right, ad_array, ad_unit, ArmaData, Elements, nil, Parse, ok,
  terminates, throws, undefined, exhausted, ◌>>=◌, Platform, has_data, parse_error_type,
  parse_error_end, parse_error_expected, ParseError, ad_string, ad_float, ad_signed, ad_unsigned,
  ad_address, string, unsigned, signed, address,
}
use operation_front_line.Arma.Numbers.{stoull, stoll, read_hex}
use operation_front_line.Arma.Numbers.Total.{stoull-ends, stoll-ends}
use operation_front_line.Arma.Parser.{
  push_back, State, outer, scalar, opening, nested, passing, Next, stop, go, then_next, with_type,
  after_separator, after_right, scalar_next, scalar_step, nested_end, nested_count, nested_next,
  open_step, step, at_end, scan, build_array, build_float, build_address, build_type, build,
  parse_arma_data,
}

module _ {F : Type 0} where
  -- The characters that a loop holds.
  abbrev pub held : State F → ℕ
  held (outer els) = 0
  held (scalar text ignore els) = length text
  held (opening els) = 1
  held (nested text ignore l r els) = length text
  held (passing st) = held st

  abbrev Ends : Parse (ArmaData F) → Type 0
  Ends r = r ≢ exhausted

  terminates-Ends : (e : ParseError) → Ends (terminates e)
  terminates-Ends e = cc

  ok-Ends : (e : ArmaData F) → Ends (ok e)
  ok-Ends e = cc

  -- What the loops do next is an end, or holds no more than `n` with what remains.
  abbrev pub IsWithin : ℕ → List ℕ → Next F → Type 0
  IsWithin n rest (stop r) = Ends r
  IsWithin n rest (go st) = held st + length rest ≤ n

  module _ (n : ℕ) (b : List ℕ → Parse (ArmaData F))
      (total : (text : List ℕ) → length text ≤ n → b text ≢ exhausted) where
    then_next-IsWithin :
        (r : Parse (ArmaData F)) (f : ArmaData F → Next F) (rest : List ℕ)
        → Ends r
        → ((e : ArmaData F) → IsWithin n rest (f e))
        → IsWithin n rest (then_next (with_type r) f)
    then_next-IsWithin (ok e) f rest h k =
        if_holds (λ r. IsWithin n rest (then_next r f)) (has_data e) (ok e)
          (terminates parse_error_type) (k e) cc
    then_next-IsWithin (terminates e) f rest h k = cc
    then_next-IsWithin throws f rest h k = cc
    then_next-IsWithin undefined f rest h k = cc
    then_next-IsWithin exhausted f rest h k = absurd (h refl)

    scalar_next-IsWithin :
        (text : List ℕ) (ignore : Bool) (els : Elements F) (rest : List ℕ)
        → length text + length rest ≤ n
        → IsWithin n rest (scalar_next b text ignore els rest)
    scalar_next-IsWithin text true els [] h = cc
    scalar_next-IsWithin text true els (d ∷ rest) h = h
    scalar_next-IsWithin text false els [] h = cc
    scalar_next-IsWithin text false els (d ∷ rest) h =
        if_holds (IsWithin n (d ∷ rest)) (d == ad_separator) _ _
          (then_next-IsWithin (b text) _ (d ∷ rest) (total text (omega arith))
            (λ e. separated (push_back els e) rest (omega arith)))
          (if_holds (IsWithin n (d ∷ rest)) (d == ad_as_right) _ _
            (then_next-IsWithin (b text) _ (d ∷ rest) (total text (omega arith))
              (λ e. closed (push_back els e) rest))
            h)
      where
        separated :
            (els : Elements F) (rest : List ℕ)
            → suc (length rest) ≤ n
            → IsWithin n (d ∷ rest) (after_separator b els rest)
        separated els [] h = cc
        separated els (d ∷ rest) h = omega arith

        closed : (els : Elements F) (rest : List ℕ) → IsWithin n (d ∷ rest) (after_right b els rest)
        closed els [] = cc
        closed els (d ∷ rest) = cc

    scalar_step-IsWithin :
        (text : List ℕ) (ignore : Bool) (els : Elements F) (c : ℕ) (rest : List ℕ)
        → length text + suc (length rest) ≤ n
        → IsWithin n rest (scalar_step b text ignore els c rest)
    scalar_step-IsWithin text ignore els c rest h =
        if_holds (IsWithin n rest) (c == ad_array) _ _ (omega arith) (
          if_holds (IsWithin n rest) (c == ad_unit) _ _
            (scalar_next-IsWithin text (not ignore) els rest (omega arith))
            (scalar_next-IsWithin (text ++ (c ∷ [])) ignore els rest
              (omega (arith, length-append text (c ∷ [])))))

    nested_end-IsWithin :
        (els : Elements F) (rest : List ℕ)
        → length rest ≤ n
        → IsWithin n rest (nested_end b els rest)
    nested_end-IsWithin els [] h = cc
    nested_end-IsWithin els (d ∷ []) h =
        if_holds (IsWithin n (d ∷ [])) (d == ad_as_right) _ _ (omega arith) cc
    nested_end-IsWithin els (d ∷ d' ∷ rest) h =
        if_holds (IsWithin n (d ∷ d' ∷ rest)) (d == ad_as_right) _ _
          (terminates-Ends parse_error_end)
          (if_holds (IsWithin n (d ∷ d' ∷ rest)) (d' == ad_as_right) _ _
            (terminates-Ends parse_error_expected) (omega arith))

    nested_count-IsWithin :
        (text : List ℕ) (l r : ℕ) (els : Elements F) (rest : List ℕ)
        → length text + length rest ≤ n
        → IsWithin n rest (nested_count b text l r els rest)
    nested_count-IsWithin text l r els rest h =
        if_holds (IsWithin n rest) (l == r) _ _
          (then_next-IsWithin (b text) _ rest (total text (omega arith))
            (λ e. nested_end-IsWithin (push_back els e) rest (omega arith)))
          h

    nested_next-IsWithin :
        (text : List ℕ) (ignore : Bool) (l r : ℕ) (els : Elements F) (c : ℕ) (rest : List ℕ)
        → length text + length rest ≤ n
        → IsWithin n rest (nested_next b text ignore l r els c rest)
    nested_next-IsWithin text true l r els c rest h = h
    nested_next-IsWithin text false l r els c rest h =
        nested_count-IsWithin text (if c == ad_as_left then suc l else l)
          (if c == ad_as_right then suc r else r) els rest h

    open_step-IsWithin :
        (els : Elements F) (c : ℕ) (rest : List ℕ)
        → 2 + length rest ≤ n
        → IsWithin n rest (open_step b els c rest)
    open_step-IsWithin els c [] h = cc
    open_step-IsWithin els c (d ∷ rest) h =
        if_holds (IsWithin n (d ∷ rest)) (c == ad_as_left) _ _ h cc

    step-IsWithin :
        (st : State F) (c : ℕ) (rest : List ℕ)
        → held st + suc (length rest) ≤ n
        → IsWithin n rest (step b st c rest)
    step-IsWithin (outer els) c rest h = scalar_step-IsWithin [] false els c rest h
    step-IsWithin (scalar text ignore els) c rest h = scalar_step-IsWithin text ignore els c rest h
    step-IsWithin (opening els) c rest h = open_step-IsWithin els c rest (omega arith)
    step-IsWithin (nested text ignore l r els) c rest h =
        nested_next-IsWithin (text ++ (c ∷ [])) _ l r els c rest
          (omega (arith, length-append text (c ∷ [])))
    step-IsWithin (passing st) c rest h = omega arith

    at_end-ends : (st : State F) → at_end b st ≢ exhausted
    at_end-ends (outer els) = cc
    at_end-ends (scalar text ignore els) = cc
    at_end-ends (opening els) = cc
    at_end-ends (nested text ignore l r els) = cc
    at_end-ends (passing st) = cc

    next-ends :
        (rest : List ℕ) (x : Next F)
        → IsWithin n rest x
        → ((st : State F) → held st + length rest ≤ n → scan b st rest ≢ exhausted)
        → (elim x [ stop r ↦ r | go st' ↦ scan b st' rest ]) ≢ exhausted
    next-ends rest (stop r) h k = h
    next-ends rest (go st) h k = k st h

    scan-ends : (st : State F) (s : List ℕ) → held st + length s ≤ n → scan b st s ≢ exhausted
    unfolding scan
    scan-ends st [] h = at_end-ends st
    scan-ends st (c ∷ rest) h =
        next-ends rest (step b st c rest) (step-IsWithin st c rest h) (λ st'. scan-ends st' rest)

  module _ (platform : Platform F) where
    then_ok-Ends :
        {A : Type 0} (f : A → ArmaData F) (r : Parse A)
        → r ≢ exhausted
        → Ends (r >>= (λ a. ok (f a)))
    then_ok-Ends f (ok a) h = cc
    then_ok-Ends f (terminates e) h = cc
    then_ok-Ends f throws h = cc
    then_ok-Ends f undefined h = cc
    then_ok-Ends f exhausted h = absurd (h refl)

    build_float-Ends : (f : Option F) (text : List ℕ) → Ends (build_float platform f text)
    build_float-Ends none text = cc
    build_float-Ends (some f) text = cc

    build_address-Ends : (a : ℕ) → Ends (build_address platform a)
    build_address-Ends a =
        if_holds Ends _ _ (ok (address a)) (terminates-Ends parse_error_type) (ok-Ends (address a))

    build_array-Ends :
        (b : List ℕ → Parse (ArmaData F)) (text : List ℕ)
        → ((text' : List ℕ) → length text' < length text → Ends (b text'))
        → Ends (build_array b text)
    build_array-Ends b [] h = cc
    build_array-Ends b (c ∷ rest) h =
        if_holds Ends (c == ad_as_left) _ _
          (scan-ends (length rest) b (λ text' k. h text' (omega arith)) (outer nil) rest
            (omega arith))
          cc

    build_type-Ends :
        (b : List ℕ → Parse (ArmaData F)) (type : ℕ) (text : List ℕ)
        → ((text' : List ℕ) → length text' < length text → Ends (b text'))
        → Ends (build_type platform b type text)
    build_type-Ends b type text h = if_holds Ends (type == ad_string) _ _ (ok-Ends (string text)) (
        if_holds Ends (type == ad_float) _ _ (build_float-Ends (platform.stof text) text) (
          if_holds Ends (type == ad_signed) _ _ (then_ok-Ends signed (stoll text) (stoll-ends text))
            (if_holds Ends (type == ad_unsigned) _ _
              (then_ok-Ends unsigned (stoull text) (stoull-ends text))
              (if_holds Ends (type == ad_array) _ _ (build_array-Ends b text h) (
                if_holds Ends (type == ad_address) _ _ (build_address-Ends (read_hex text))
                  (terminates-Ends parse_error_type))))))

    build-Ends : (fuel : ℕ) (text : List ℕ) → length text < fuel → Ends (build platform fuel text)
    unfolding build
    build-Ends zero text h = absurd (omega arith)
    build-Ends (suc fuel) [] h = cc
    build-Ends (suc fuel) (type ∷ []) h = cc
    build-Ends (suc fuel) (type ∷ c ∷ rest) h =
        build_type-Ends (build platform fuel) type (c ∷ rest)
          (λ text' k. build-Ends fuel text' (omega arith))

    -- The parser never runs out of fuel.
    pub parse_arma_data-ends : (text : List ℕ) → parse_arma_data platform text ≢ exhausted
    parse_arma_data-ends text = build-Ends (suc (length text)) text (omega arith)
