-- ===== src/Arma/Message.antt =====
-- OPFL/ThreadHive.h, `ArmaMessage`: a function's name in front of the data.
pub mod RoundTrip
use operation_front_line.Common.{
  ℕ, Bool, true, false, ◌||◌, List, [], ◌∷◌, ◌++◌, ◌==◌, if◌then◌else◌,
}
use operation_front_line.Arma.{
  ad_string, ad_float, ad_unsigned, ad_signed, ad_address, ad_array, ad_separator, ArmaData, null,
  has_data, Parse, ok, undefined, ◌>>=◌, Platform,
}
use operation_front_line.Arma.Parser.{parse_arma_data}
use operation_front_line.Arma.Printer.{deparse}

pub record ArmaMessage (F : Type 0) : Type 0 where
  pub name : List ℕ
  pub has_func : Bool
  pub data_of : ArmaData F

abbrev pub message : {F : Type 0} → List ℕ → Bool → ArmaData F → ArmaMessage F
message name has_func data_of = record { name = name; has_func = has_func; data_of = data_of }

-- The test on the first character: is there no function?
abbrev pub null_func : ℕ → Bool
null_func c =
    (c == ad_string)
    || ((c == ad_float)
        || ((c == ad_signed) || ((c == ad_unsigned) || ((c == ad_address) || (c == ad_array)))))

-- The characters in front of a separator, and what follows from it on.
pub read_name : List ℕ → List ℕ × List ℕ
read_name [] = ([], [])
read_name (c ∷ s) =
    let (name, rest) = read_name s in if c == ad_separator then ([], c ∷ s) else (c ∷ name, rest)

module _ {F : Type 0} (platform : Platform F) where
  -- `ParseData` reads the first character of the data, which may not be there.
  abbrev pub parse_named : List ℕ × List ℕ → Parse (ArmaMessage F)
  parse_named (name, []) = ok (message name true null)
  parse_named (name, c ∷ []) = undefined
  parse_named (name, c ∷ d ∷ text) =
      parse_arma_data platform (d ∷ text) >>= (λ d. ok (message name true d))

  -- `ArmaMessage::ParseArmaData`
  pub parse_message : List ℕ → Parse (ArmaMessage F)
  parse_message [] = ok (message [] false null)
  parse_message (c ∷ s) =
      if null_func c
      then parse_arma_data platform (c ∷ s) >>= (λ d. ok (message [] false d))
      else parse_named (read_name (c ∷ s))

  abbrev pub separator : Bool → List ℕ
  separator true = ad_separator ∷ []
  separator false = []

  -- `ArmaMessage::DeparseArmaData`
  pub deparse_message : ArmaMessage F → List ℕ
  deparse_message m =
      (if m.has_func then m.name ++ separator (has_data (m.data_of)) else [])
      ++ deparse platform (m.data_of)
