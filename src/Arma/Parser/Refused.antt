-- ===== src/Arma/Parser/Refused.antt =====
-- What the parser of the data does not accept of what the printer writes.
use operation_front_line.Common.{
  ℕ, ◌≡◌, ◌≢◌, refl, ap, ◌∙◌, true, List, [], ◌∷◌, ◌++◌, length, ne→==,
}
use operation_front_line.Arma.{
  ad_array, ad_as_left, ad_string, ad_unit, ArmaData, Elements, nil, Parse, terminates,
  parse_error_expected, Platform,
}
use operation_front_line.Arma.Parser.{
  scalar, opening, stop, open_step, scan, build, parse_arma_data,
}
use operation_front_line.Arma.Parser.Scalars.{
  Each, IsQuotable, resume, scan-step, scan-go, scan-string_open,
}

module _ {F : Type 0} (b : List ℕ → Parse (ArmaData F)) (els : Elements F) where
  open_step-refused :
      (c : ℕ) (rest : List ℕ)
      → c ≢ ad_as_left
      → open_step b els c rest ≡ stop (terminates parse_error_expected)
  open_step-refused c [] ne = refl
  open_step-refused c (d ∷ rest) ne = rw (ne→== ne) refl

  scan-at_sign :
      (text : List ℕ) (c : ℕ) (rest : List ℕ)
      → c ≢ ad_as_left
      → scan b (scalar text true els) (ad_array ∷ c ∷ rest) ≡ terminates parse_error_expected
  scan-at_sign text c rest ne =
      scan-go b (scalar text true els) (opening els) ad_array (c ∷ rest) refl
      ∙ scan-step b (opening els) c rest
      ∙ ap (λ x. resume b x rest) (open_step-refused c rest ne)

-- An `@` in the quoted string that the text of an array starts with ends the process, where a character other
-- than `[` follows it.
pub parse_arma_data-at_sign :
    {F : Type 0} (platform : Platform F) (s : List ℕ) (c : ℕ) (rest : List ℕ)
    → Each IsQuotable s
    → c ≢ ad_as_left
    → parse_arma_data platform
        (ad_array ∷ ad_as_left ∷ ad_string ∷ ad_unit ∷ s ++ ad_array ∷ c ∷ rest)
      ≡ terminates parse_error_expected
unfolding build scan
parse_arma_data-at_sign platform s c rest h ne =
    scan-string_open (build platform (length text)) nil s ad_array (c ∷ rest) h
    ∙ scan-at_sign (build platform (length text)) nil (ad_string ∷ s) c rest ne
  where
    text : List ℕ
    text = ad_array ∷ ad_as_left ∷ ad_string ∷ ad_unit ∷ s ++ ad_array ∷ c ∷ rest
