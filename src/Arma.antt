-- ===== src/Arma.antt =====
-- OPFL/ThreadHive.h, `ArmaElement`, `ArmaData` and `ArmaMessage`: the values that the game and the
-- extension exchange as text. A `char` is its code. A fresh object is modelled, as both constructors from
-- text make it: a call answers the value that it stores. The memory of the values is not modelled.
pub mod Numbers
pub mod Parser
pub mod Printer
pub mod Message
pub mod Object
mod Tests
use operation_front_line.Common.{ℕ, zero, suc, ◌+◌, Option, List, [], ◌∷◌, ℤ, Bool, true, false}

-- `AD_STRING` to `AD_UNIT`
abbrev pub ad_string : ℕ
ad_string = b'$'

abbrev pub ad_float : ℕ
ad_float = b'#'

abbrev pub ad_unsigned : ℕ
ad_unsigned = b'+'

abbrev pub ad_signed : ℕ
ad_signed = b'-'

abbrev pub ad_address : ℕ
ad_address = b'*'

abbrev pub ad_array : ℕ
ad_array = b'@'

abbrev pub ad_separator : ℕ
ad_separator = b','

abbrev pub ad_as_right : ℕ
ad_as_right = b']'

abbrev pub ad_as_left : ℕ
ad_as_left = b'['

abbrev pub ad_unit : ℕ
ad_unit = 31

-- An object with no data is `null`. A float carries its precision; `F` is the type `float`.
mutual
  pub data ArmaData (F : Type 0) : Type 0 where
    null : ArmaData F
    string : List ℕ → ArmaData F
    float : F → ℕ → ArmaData F
    unsigned : ℕ → ArmaData F
    signed : ℤ → ArmaData F
    address : ℕ → ArmaData F
    array : Elements F → ArmaData F

  pub data Elements (F : Type 0) : Type 0 where
    nil : Elements F
    cons : ArmaData F → Elements F → Elements F

-- `HasData`
abbrev pub has_data : {F : Type 0} → ArmaData F → Bool
has_data null = false
has_data (string s) = true
has_data (float f p) = true
has_data (unsigned n) = true
has_data (signed z) = true
has_data (address a) = true
has_data (array els) = true

-- The messages that the parser and `AsType` end the process with.
pub data ParseError : Type 0 where
  parse_error_type parse_error_expected parse_error_end as_type_error : ParseError

-- A call answers a value, ends the process by `ThrowError(…, true)`, lets an exception of the number
-- parsers out, reads past the end of the text, or, in the model alone, is out of fuel.
pub data Parse {ℓ} (A : Type ℓ) : Type ℓ where
  ok : A → Parse A
  terminates : ParseError → Parse A
  throws undefined exhausted : Parse A

infixl 5 ◌>>=◌
abbrev pub ◌>>=◌ {ℓ κ} : {A : Type ℓ} {B : Type κ} → Parse A → (A → Parse B) → Parse B
ok a >>= f = f a
terminates e >>= f = terminates e
throws >>= f = throws
undefined >>= f = undefined
exhausted >>= f = exhausted

-- What the language gives: `float`, its parser `std::stof`, its output with a fixed number of decimal
-- places, and the size of a pointer.
pub record Platform (F : Type 0) : Type 0 where
  pub stof : List ℕ → Option F
  pub to_fixed : ℕ → F → List ℕ
  pub wide_pointers : Bool
