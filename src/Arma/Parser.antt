-- ===== src/Arma/Parser.antt =====
-- OPFL/ThreadHive.h, `ArmaData::ParseArmaData`, `ParseData` and `BuildData`. The iterator and its position
-- are the characters that remain; to read behind them is `undefined`. The loops of `BuildData` over an array
-- are one loop over the characters, whose state says which of them runs and what its variables hold.
pub mod Termination
pub mod Scalars
pub mod Brackets
pub mod Passing
pub mod Endings
pub mod TypedLoops
pub mod Typed
pub mod Refused
pub mod RoundTrip
use operation_front_line.Common.{
  ℕ, zero, suc, ◌+◌, ◌%◌, ◌^◌, Bool, true, false, not, ◌&&◌, ◌||◌, Option, none, some, List, [],
  ◌∷◌, ◌++◌, length, leb, ◌==◌, if◌then◌else◌, u16,
}
use mathlib.Core.List.{reverse}
use operation_front_line.Arma.{
  ad_string, ad_float, ad_unsigned, ad_signed, ad_address, ad_array, ad_separator, ad_as_right,
  ad_as_left, ad_unit, ArmaData, null, string, float, unsigned, signed, address, array, Elements,
  nil, cons, ParseError, parse_error_type, parse_error_expected, parse_error_end, Parse, ok,
  terminates, throws, undefined, exhausted, ◌>>=◌, Platform, has_data,
}
use operation_front_line.Arma.Numbers.{stoull, stoll, read_hex}

-- The loop of `DecimalPlaces` from the last character back, at its counter.
unfoldable pub places_from : ℕ → List ℕ → ℕ
places_from i [] = 0
places_from i (c ∷ s) = let rest = places_from (suc i) s in if c == b'.' then i else rest

abbrev pub decimal_places : List ℕ → ℕ
decimal_places s = places_from 0 (reverse s)

-- Where a loop stands, with `temp`, `ignore`, the counters of brackets and `tempArray`: at the head of the
-- outer loop, in the loop over an element that is no array, behind the `@` of one that is, in the loop
-- over that, or in front of a character to pass over, since the loop has read it already.
pub data State (F : Type 0) : Type 0 where
  outer : Elements F → State F
  scalar : List ℕ → Bool → Elements F → State F
  opening : Elements F → State F
  nested : List ℕ → Bool → ℕ → ℕ → Elements F → State F
  passing : State F → State F

pub data Next (F : Type 0) : Type 0 where
  stop : Parse (ArmaData F) → Next F
  go : State F → Next F

module _ {F : Type 0} where
  -- `tempArray->push_back`
  pub push_back : Elements F → ArmaData F → Elements F
  push_back nil e = cons e nil
  push_back (cons d els) e = cons d (push_back els e)

  abbrev pub then_next : Parse (ArmaData F) → (ArmaData F → Next F) → Next F
  then_next (ok e) f = f e
  then_next (terminates e) f = stop (terminates e)
  then_next throws f = stop throws
  then_next undefined f = stop undefined
  then_next exhausted f = stop exhausted

  -- `new ArmaData(temp)`, which has to have a type.
  abbrev pub with_type : Parse (ArmaData F) → Parse (ArmaData F)
  with_type (ok e) = if has_data e then ok e else terminates parse_error_type
  with_type (terminates e) = terminates e
  with_type throws = throws
  with_type undefined = undefined
  with_type exhausted = exhausted

  -- `b` builds the data of an element from its text.
  module _ (b : List ℕ → Parse (ArmaData F)) where
    -- What follows a separator, and what follows the right bracket.
    abbrev pub after_separator : Elements F → List ℕ → Next F
    after_separator els [] = stop (terminates parse_error_expected)
    after_separator els (d ∷ rest) = go (passing (scalar [] false els))

    abbrev pub after_right : Elements F → List ℕ → Next F
    after_right els [] = stop (ok (array els))
    after_right els (d ∷ rest) = stop (terminates parse_error_end)

    -- The loop over an element that is no array, behind the tests of `AD_UNIT`.
    abbrev pub scalar_next : List ℕ → Bool → Elements F → List ℕ → Next F
    scalar_next text true els [] = stop (terminates parse_error_expected)
    scalar_next text true els (d ∷ rest) = go (scalar text true els)
    scalar_next text false els [] = stop undefined
    scalar_next text false els (d ∷ rest) =
        if d == ad_separator
        then then_next (with_type (b text)) (λ e. after_separator (push_back els e) rest)
        else if d == ad_as_right
        then then_next (with_type (b text)) (λ e. after_right (push_back els e) rest)
        else go (scalar text false els)

    abbrev pub scalar_step : List ℕ → Bool → Elements F → ℕ → List ℕ → Next F
    scalar_step text ignore els c rest =
        if c == ad_array
        then go (opening els)
        else if c == ad_unit
        then scalar_next text (not ignore) els rest
        else scalar_next (text ++ (c ∷ [])) ignore els rest

    -- What follows the last bracket of an array in an array.
    abbrev pub nested_end : Elements F → List ℕ → Next F
    nested_end els [] = stop (terminates parse_error_type)
    nested_end els (d ∷ []) =
        if d == ad_as_right
        then go (passing (outer els))
        else stop (terminates parse_error_expected)
    nested_end els (d ∷ d' ∷ rest) =
        if d == ad_as_right
        then stop (terminates parse_error_end)
        else if d' == ad_as_right
        then stop (terminates parse_error_expected)
        else go (passing (outer els))

    -- The loop over an array in an array, behind the test of `AD_UNIT`.
    abbrev pub nested_count : List ℕ → ℕ → ℕ → Elements F → List ℕ → Next F
    nested_count text l r els rest =
        if l == r
        then then_next (with_type (b text)) (λ e. nested_end (push_back els e) rest)
        else go (nested text false l r els)

    abbrev pub nested_next : List ℕ → Bool → ℕ → ℕ → Elements F → ℕ → List ℕ → Next F
    nested_next text true l r els c rest = go (nested text true l r els)
    nested_next text false l r els c rest =
        nested_count text (if c == ad_as_left then suc l else l)
          (if c == ad_as_right then suc r else r) els rest

    abbrev pub open_step : Elements F → ℕ → List ℕ → Next F
    open_step els c [] = stop (terminates parse_error_expected)
    open_step els c (d ∷ rest) =
        if c == ad_as_left
        then go (nested (ad_array ∷ c ∷ []) false 1 0 els)
        else stop (terminates parse_error_expected)

    -- The loops at a character `c`, in front of `rest`.
    abbrev pub step : State F → ℕ → List ℕ → Next F
    step (outer els) c rest = scalar_step [] false els c rest
    step (scalar text ignore els) c rest = scalar_step text ignore els c rest
    step (opening els) c rest = open_step els c rest
    step (nested text ignore l r els) c rest =
        nested_next (text ++ (c ∷ [])) (if c == ad_unit then not ignore else ignore) l r els c rest
    step (passing st) c rest = go st

    -- The loops at the end of the text. Only the head of the outer loop tests for it.
    abbrev pub at_end : State F → Parse (ArmaData F)
    at_end (outer els) = ok (array els)
    at_end (scalar text ignore els) = undefined
    at_end (opening els) = undefined
    at_end (nested text ignore l r els) = undefined
    at_end (passing st) = undefined

    unfoldable pub scan : State F → List ℕ → Parse (ArmaData F)
    scan st [] = at_end st
    scan st (c ∷ rest) = elim (step st c rest) [ stop r ↦ r | go st' ↦ scan st' rest ]

    abbrev pub build_array : List ℕ → Parse (ArmaData F)
    build_array [] = ok null
    build_array (c ∷ rest) = if c == ad_as_left then scan (outer nil) rest else ok null

  module _ (platform : Platform F) where
    abbrev pub build_float : Option F → List ℕ → Parse (ArmaData F)
    build_float none text = throws
    build_float (some f) text = ok (float f (u16 (decimal_places text)))

    -- A pointer of 32 bits refuses an address of 64.
    abbrev pub build_address : ℕ → Parse (ArmaData F)
    build_address a =
        if not (platform.wide_pointers) && leb (2 ^ 32) a
        then terminates parse_error_type
        else ok (address a)

    -- The `switch` on the type, in front of `text`.
    abbrev pub build_type : (List ℕ → Parse (ArmaData F)) → ℕ → List ℕ → Parse (ArmaData F)
    build_type b type text =
        if type == ad_string
        then ok (string text)
        else if type == ad_float
        then build_float (platform.stof text) text
        else if type == ad_signed
        then stoll text >>= (λ z. ok (signed z))
        else if type == ad_unsigned
        then stoull text >>= (λ n. ok (unsigned n))
        else if type == ad_array
        then build_array b text
        else if type == ad_address
        then build_address (read_hex text)
        else terminates parse_error_type

    -- `ArmaData(text)`. An element of an array is built by one more call, for which there is fuel.
    unfoldable pub build : ℕ → List ℕ → Parse (ArmaData F)
    build zero text = exhausted
    build (suc fuel) [] = ok null
    build (suc fuel) (type ∷ []) = terminates parse_error_type
    build (suc fuel) (type ∷ c ∷ rest) = build_type (build fuel) type (c ∷ rest)

    -- `ArmaData::ParseArmaData`
    abbrev pub parse_arma_data : List ℕ → Parse (ArmaData F)
    parse_arma_data text = build (suc (length text)) text
