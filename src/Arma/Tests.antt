-- ===== src/Arma/Tests.antt =====
-- Runs of the parser and the printer of the messages, and instances of the theorems on them.
use operation_front_line.Common.{
  ℕ, ◌≡◌, ◌≢◌, refl, inr, true, List, [], ◌∷◌, some, u16, negsuc, arith,
}
use operation_front_line.Arma.{
  ad_array, ad_as_left, ad_string, ad_unit, ArmaData, string, float, unsigned, signed, address,
  array, nil, cons, Platform, ok, terminates, undefined, exhausted, parse_error_expected,
}
use operation_front_line.Arma.Message.{message, parse_message, deparse_message}
use operation_front_line.Arma.Message.RoundTrip.{parse_message-deparse_message, parse_message-ends}
use operation_front_line.Arma.Object.{set_float, clear_data}
use operation_front_line.Arma.Parser.{parse_arma_data, build, scan, places_from, decimal_places}
use operation_front_line.Arma.Printer.Printable.{IsPrintable}
use operation_front_line.Arma.Parser.Refused.{parse_arma_data-at_sign}
use operation_front_line.Arma.Parser.RoundTrip.{parse_arma_data-deparse}
use operation_front_line.Arma.Parser.Typed.{parse_arma_data-IsWellTyped}
use operation_front_line.Arma.Parser.TypedLoops.{IsWellTyped}
use operation_front_line.Arma.Printer.{deparse}

-- A float stands for its text.
abbrev platform : Platform (List ℕ)
platform = record { stof = λ s. some s; to_fixed = λ n s. s; wide_pointers = true }

-- `@[$],,@[+12,--5],*ff,#4.5]`, with the string quoted.
abbrev sample : ArmaData (List ℕ)
sample = array (
    cons (string (b']' ∷ b',' ∷ [])) (
      cons (array (cons (unsigned 12) (cons (signed (negsuc 4)) nil)))
        (cons (address 255) (cons (float (b'4' ∷ b'.' ∷ b'5' ∷ []) 1) nil))))

-- An array that is not closed is read, and a closed empty one is read past its end.
empty_open : parse_arma_data platform (b'@' ∷ b'[' ∷ []) ≡ ok (array nil)
unfolding build scan
empty_open = refl

empty_closed : parse_arma_data platform (b'@' ∷ b'[' ∷ b']' ∷ []) ≡ undefined
unfolding build scan
empty_closed = refl

sample_places : u16 (decimal_places (b'4' ∷ b'.' ∷ b'5' ∷ [])) ≡ 1
unfolding places_from
sample_places = refl

sample-IsPrintable : IsPrintable platform sample
sample-IsPrintable = (
  ground arith,
  (ground arith, (ground arith, ((refl, (sample_places, (ground arith, ground arith))), tt))),
)

parse_arma_data-deparse_example : parse_arma_data platform (deparse platform sample) ≡ ok sample
parse_arma_data-deparse_example = parse_arma_data-deparse platform sample sample-IsPrintable

-- A float that was set over a protected array, whose elements are kept, is read with the precision set.
set_over_protected :
    set_float {F = List ℕ}
      (record { value = array (cons (unsigned 7) nil); precision = 2; data_protection = true })
      (b'4' ∷ [])
    ≡ (nil, record { value = float (b'4' ∷ []) 2; precision = 2; data_protection = true })
unfolding set_float clear_data
set_over_protected = refl

abbrev kills : List ℕ
kills = b'k' ∷ b'i' ∷ []

parse_message-deparse_message_example :
    parse_message platform (deparse_message platform (message kills true sample))
    ≡ ok (message kills true sample)
parse_message-deparse_message_example =
    parse_message-deparse_message platform kills true sample (ground arith) (inr sample-IsPrintable)

parse_message-ends_example : parse_message platform (b'@' ∷ b'[' ∷ b'@' ∷ b'[' ∷ []) ≢ exhausted
parse_message-ends_example = parse_message-ends platform (b'@' ∷ b'[' ∷ b'@' ∷ b'[' ∷ [])

parse_arma_data-IsWellTyped_example : IsWellTyped platform sample
parse_arma_data-IsWellTyped_example =
    parse_arma_data-IsWellTyped platform (deparse platform sample) sample
      (parse_arma_data-deparse platform sample sample-IsPrintable)

parse_arma_data-at_sign_example :
    parse_arma_data platform
      (ad_array ∷ ad_as_left ∷ ad_string ∷ ad_unit ∷ b'a' ∷ ad_array ∷ b'b' ∷ [])
    ≡ terminates parse_error_expected
parse_arma_data-at_sign_example =
    parse_arma_data-at_sign platform (b'a' ∷ []) b'b' [] (ground arith) (omega arith)
