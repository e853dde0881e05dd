-- ===== src/Arma/Printer.antt =====
-- OPFL/ThreadHive.h, `ArmaData::DeparseArmaData`: the text that a call appends.
pub mod Printable
use operation_front_line.Common.{ℕ, List, [], ◌∷◌, ◌++◌, if◌then◌else◌}
use operation_front_line.Arma.{
  ad_string, ad_float, ad_unsigned, ad_signed, ad_address, ad_array, ad_separator, ad_as_right,
  ad_as_left, ad_unit, ArmaData, null, string, float, unsigned, signed, address, array, Elements,
  nil, cons, Platform, has_data,
}
use operation_front_line.Arma.Numbers.{print_number, to_string_unsigned, to_string_signed}

pub pop_back : List ℕ → List ℕ
pop_back [] = []
pop_back (c ∷ []) = []
pop_back (c ∷ d ∷ s) = c ∷ pop_back (d ∷ s)

module _ {F : Type 0} where
  -- An array of any size loses the last character, also where no element has data.
  abbrev pub close_array : Elements F → List ℕ → List ℕ
  close_array nil text = text ++ (ad_as_right ∷ [])
  close_array (cons d els) text = pop_back text ++ (ad_as_right ∷ [])

  module _ (platform : Platform F) where
    unfoldable mutual
      pub deparse : ArmaData F → List ℕ
      deparse null = []
      deparse (string s) = ad_string ∷ ad_unit ∷ s ++ (ad_unit ∷ [])
      deparse (float f p) = ad_float ∷ platform.to_fixed p f
      deparse (unsigned n) = ad_unsigned ∷ to_string_unsigned n
      deparse (signed z) = ad_signed ∷ to_string_signed z
      deparse (address a) = ad_address ∷ print_number 16 a
      deparse (array els) = ad_array ∷ close_array els (ad_as_left ∷ deparse_elements els)

      -- The elements that have data, a separator behind each.
      pub deparse_elements : Elements F → List ℕ
      deparse_elements nil = []
      deparse_elements (cons d els) =
          let text = deparse d in
          let rest = deparse_elements els in
          if has_data d then text ++ (ad_separator ∷ rest) else rest
