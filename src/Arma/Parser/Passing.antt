-- ===== src/Arma/Parser/Passing.antt =====
-- The loop of the parser over an array in an array goes past printed data.
use mathlib.Core.Path.{subst}
use operation_front_line.Common.{
  ℕ, suc, ◌≡◌, refl, sym, ◌⊎◌, inl, inr, pos, negsuc, List, [], ◌∷◌, ◌++◌, arith,
}
use operation_front_line.Arma.{
  ad_array, ad_separator, ad_as_right, ad_as_left, ad_unit, ad_string, ad_float, ad_signed,
  ad_unsigned, ad_address, ArmaData, null, string, float, unsigned, signed, address, array,
  Elements, nil, cons, Parse, Platform,
}
use operation_front_line.Arma.Numbers.{print_number}
use operation_front_line.Arma.Numbers.RoundTrip.{AllDigits, print_number-AllDigits}
use operation_front_line.Arma.Parser.Scalars.{Each, IsPlain}
use operation_front_line.Arma.Parser.Brackets.{
  Passes, Passes-append, Passes-char, Passes-Each, Passes-quoted, Passes-brackets, IsFree,
}
use operation_front_line.Arma.Printer.{deparse}
use operation_front_line.Arma.Printer.Printable.{IsPrintable, AllPrintable, join, deparse-array}

-- Digits are plain.
AllDigits-IsPlain : (base : ℕ) (s : List ℕ) → AllDigits base s → Each IsPlain s
AllDigits-IsPlain base [] h = tt
AllDigits-IsPlain base (c ∷ s) (h, hs) = (ground arith, AllDigits-IsPlain base s hs)

pub print_number-IsPlain :
    (base n : ℕ) → (base ≡ 10) ⊎ (base ≡ 16) → Each IsPlain (print_number base n)
print_number-IsPlain base n b =
    AllDigits-IsPlain base (print_number base n) (print_number-AllDigits base n b)

pub float-IsPlain :
    {F : Type 0} (platform : Platform F) (f : F) (p : ℕ)
    → IsPrintable platform (float f p)
    → Each IsPlain (platform.to_fixed p f)
float-IsPlain platform f p (a, (b, (c, d))) = d

module _ {F : Type 0} (platform : Platform F) where
  -- The loop over an array in an array goes past printed data.
  module _ (b : List ℕ → Parse (ArmaData F)) where
    plain-Passes : (s : List ℕ) → Each IsPlain s → Passes b s
    plain-Passes s h = Passes-Each b s (free s h)
      where
        free : (s : List ℕ) → Each IsPlain s → Each (IsFree b) s
        free [] h = tt
        free (c ∷ s) (((q, u), (p, (r, l))), hs) = ((u, (l, r)), free s hs)

    mutual
      unfolding deparse

      pub deparse-Passes : (e : ArmaData F) → IsPrintable platform e → Passes b (deparse platform e)
      deparse-Passes null h = elim h [ ]
      deparse-Passes (string s) (ne, h) =
          Passes-append b (ad_string ∷ []) (ad_unit ∷ s ++ (ad_unit ∷ []))
            (Passes-char b ad_string (ground arith)) (Passes-quoted b s h)
      deparse-Passes (float f p) h =
          plain-Passes (ad_float ∷ platform.to_fixed p f)
            (ground arith, float-IsPlain platform f p h)
      deparse-Passes (unsigned n) h =
          plain-Passes (ad_unsigned ∷ print_number 10 n)
            (ground arith, print_number-IsPlain 10 n (inl refl))
      deparse-Passes (signed (pos n)) h =
          plain-Passes (ad_signed ∷ print_number 10 n)
            (ground arith, print_number-IsPlain 10 n (inl refl))
      deparse-Passes (signed (negsuc n)) h =
          plain-Passes (ad_signed ∷ b'-' ∷ print_number 10 (suc n))
            (ground arith, (ground arith, print_number-IsPlain 10 (suc n) (inl refl)))
      deparse-Passes (address a) h =
          plain-Passes (ad_address ∷ print_number 16 a)
            (ground arith, print_number-IsPlain 16 a (inr refl))
      deparse-Passes (array nil) h = elim h [ ]
      deparse-Passes (array (cons e els)) (h, hs) =
          subst (Passes b) (sym (deparse-array platform e els h hs)) (
            Passes-append b (ad_array ∷ []) (ad_as_left ∷ join platform e els ++ (ad_as_right ∷ []))
              (Passes-char b ad_array (ground arith))
              (Passes-brackets b (join platform e els) (join-Passes e els (deparse-Passes e h) hs)))

      pub join-Passes :
          (e : ArmaData F) (els : Elements F)
          → Passes b (deparse platform e)
          → AllPrintable platform els
          → Passes b (join platform e els)
      join-Passes e nil p hs = p
      join-Passes e (cons e' els) p (h', hs) =
          Passes-append b (deparse platform e) (ad_separator ∷ join platform e' els) p (
            Passes-append b (ad_separator ∷ []) (join platform e' els)
              (Passes-char b ad_separator (ground arith))
              (join-Passes e' els (deparse-Passes e' h') hs))
