-- ===== src/Arma/Parser/Endings.antt =====
-- The loops of the parser at a printed element of an array.
use mathlib.Core.List.{append_assoc}
use operation_front_line.Common.{
  ℕ, suc, ◌≡◌, ◌≢◌, refl, ap, sym, ◌∙◌, inl, inr, ℤ, pos, negsuc, false, List, [], ◌∷◌, ◌++◌, arith,
}
use operation_front_line.Arma.{
  ad_array, ad_separator, ad_as_right, ad_as_left, ad_unit, ad_string, ad_float, ad_signed,
  ad_unsigned, ad_address, ArmaData, null, string, float, unsigned, signed, address, array,
  Elements, nil, cons, Parse, ok, Platform,
}
use operation_front_line.Arma.Numbers.{print_number}
use operation_front_line.Arma.Parser.{outer, scalar, scalar_next, scan, push_back}
use operation_front_line.Arma.Parser.Scalars.{
  Each, IsQuotable, IsPlain, resume, scan-plain, scan-string, at_separator, at_right,
}
use operation_front_line.Arma.Parser.Brackets.{bracketed-separator, bracketed-right}
use operation_front_line.Arma.Printer.{deparse}
use operation_front_line.Arma.Printer.Printable.{
  IsPrintable, AllPrintable, bare, join, deparse-array,
}
use operation_front_line.Arma.Parser.Passing.{
  float-IsPlain, print_number-IsPlain, deparse-Passes, join-Passes,
}

module _ {F : Type 0} (platform : Platform F) where
  -- The loops at an element, in front of what follows it.
  module _ (b : List ℕ → Parse (ArmaData F)) (els : Elements F) where
    outer-scalar :
        (c : ℕ) (s : List ℕ) → scan b (outer els) (c ∷ s) ≡ scan b (scalar [] false els) (c ∷ s)
    unfolding scan
    outer-scalar c s = refl

    outer-plain :
        (c : ℕ) (s : List ℕ) (d : ℕ) (rest : List ℕ)
        → IsPlain c
        → Each IsPlain s
        → scan b (outer els) (c ∷ s ++ d ∷ rest)
          ≡ resume b (scalar_next b (c ∷ s) false els (d ∷ rest)) (d ∷ rest)
    outer-plain c s d rest h hs =
        outer-scalar c (s ++ d ∷ rest) ∙ scan-plain b els [] c s d rest (h, hs)

    -- The first loop over an array in an array, or over any other element, comes to its end.
    abbrev Ending : ArmaData F → ℕ → List ℕ → Type 0
    Ending e d rest =
        scan b (outer els) (deparse platform e ++ d ∷ rest)
        ≡ resume b (scalar_next b (bare platform e) false els (d ∷ rest)) (d ∷ rest)

    Ending-string :
        (s : List ℕ) (d : ℕ) (rest : List ℕ) → Each IsQuotable s → Ending (string s) d rest
    unfolding deparse
    Ending-string s d rest h =
        ap (λ t. scan b (outer els) (ad_string ∷ ad_unit ∷ t))
          (append_assoc s (ad_unit ∷ []) (d ∷ rest))
        ∙ outer-scalar ad_string (ad_unit ∷ s ++ ad_unit ∷ d ∷ rest)
        ∙ scan-string b els s d rest h

    Ending-float :
        (f : F) (p d : ℕ) (rest : List ℕ)
        → Each IsPlain (platform.to_fixed p f)
        → Ending (float f p) d rest
    unfolding deparse
    Ending-float f p d rest h = outer-plain ad_float (platform.to_fixed p f) d rest (ground arith) h

    Ending-unsigned : (n d : ℕ) (rest : List ℕ) → Ending (unsigned n) d rest
    unfolding deparse
    Ending-unsigned n d rest =
        outer-plain ad_unsigned (print_number 10 n) d rest (ground arith)
          (print_number-IsPlain 10 n (inl refl))

    Ending-signed : (z : ℤ) (d : ℕ) (rest : List ℕ) → Ending (signed z) d rest
    unfolding deparse
    Ending-signed (pos n) d rest =
        outer-plain ad_signed (print_number 10 n) d rest (ground arith)
          (print_number-IsPlain 10 n (inl refl))
    Ending-signed (negsuc n) d rest =
        outer-plain ad_signed (b'-' ∷ print_number 10 (suc n)) d rest (ground arith)
          (ground arith, print_number-IsPlain 10 (suc n) (inl refl))

    Ending-address : (a d : ℕ) (rest : List ℕ) → Ending (address a) d rest
    unfolding deparse
    Ending-address a d rest =
        outer-plain ad_address (print_number 16 a) d rest (ground arith)
          (print_number-IsPlain 16 a (inr refl))

    module _ (e : ArmaData F) (els' : Elements F) (h : IsPrintable platform e)
        (hs : AllPrintable platform els')
        (built : b (deparse platform (array (cons e els'))) ≡ ok (array (cons e els'))) where
      -- The text of an array in front of what follows it.
      array-text :
          (rest : List ℕ)
          → scan b (outer els) (deparse platform (array (cons e els')) ++ rest)
            ≡ scan b
                (scalar [] false els)
                (ad_array ∷ ad_as_left ∷ join platform e els' ++ ad_as_right ∷ rest)
      array-text rest =
          ap (λ t. scan b (outer els) (t ++ rest)) (deparse-array platform e els' h hs)
          ∙ ap (λ t. scan b (outer els) (ad_array ∷ ad_as_left ∷ t))
              (append_assoc (join platform e els') (ad_as_right ∷ []) rest)
          ∙ outer-scalar ad_array (ad_as_left ∷ join platform e els' ++ ad_as_right ∷ rest)

      array-separator :
          (c : ℕ) (rest : List ℕ)
          → c ≢ ad_as_right
          → scan b (outer els) (deparse platform (array (cons e els')) ++ ad_separator ∷ c ∷ rest)
            ≡ scan b (outer (push_back els (array (cons e els')))) (c ∷ rest)
      array-separator c rest ne =
          array-text (ad_separator ∷ c ∷ rest)
          ∙ bracketed-separator b els (join platform e els')
              (join-Passes platform b e els' (deparse-Passes platform b e h) hs)
              (array (cons e els')) (ap b (sym (deparse-array platform e els' h hs)) ∙ built) refl c
              rest ne

      array-right :
          scan b (outer els) (deparse platform (array (cons e els')) ++ ad_as_right ∷ [])
          ≡ ok (array (push_back els (array (cons e els'))))
      array-right =
          array-text (ad_as_right ∷ [])
          ∙ bracketed-right b els (join platform e els')
              (join-Passes platform b e els' (deparse-Passes platform b e h) hs)
              (array (cons e els')) (ap b (sym (deparse-array platform e els' h hs)) ∙ built) refl

    -- A printed element, in front of a separator and in front of the last bracket.
    pub element-separator :
        (e : ArmaData F) (c : ℕ) (rest : List ℕ)
        → IsPrintable platform e
        → b (bare platform e) ≡ ok e
        → c ≢ ad_as_right
        → scan b (outer els) (deparse platform e ++ ad_separator ∷ c ∷ rest)
          ≡ scan b (outer (push_back els e)) (c ∷ rest)
    element-separator null c rest h built ne = elim h [ ]
    element-separator (string s) c rest (n, h) built ne =
        Ending-string s ad_separator (c ∷ rest) h
        ∙ at_separator b els _ (string s) built refl c rest
    element-separator (float f p) c rest h built ne =
        Ending-float f p ad_separator (c ∷ rest) (float-IsPlain platform f p h)
        ∙ at_separator b els _ (float f p) built refl c rest
    element-separator (unsigned n) c rest h built ne =
        Ending-unsigned n ad_separator (c ∷ rest)
        ∙ at_separator b els _ (unsigned n) built refl c rest
    element-separator (signed z) c rest h built ne =
        Ending-signed z ad_separator (c ∷ rest) ∙ at_separator b els _ (signed z) built refl c rest
    element-separator (address a) c rest h built ne =
        Ending-address a ad_separator (c ∷ rest)
        ∙ at_separator b els _ (address a) built refl c rest
    element-separator (array nil) c rest h built ne = elim h [ ]
    element-separator (array (cons e els')) c rest (h, hs) built ne =
        array-separator e els' h hs built c rest ne

    pub element-right :
        (e : ArmaData F)
        → IsPrintable platform e
        → b (bare platform e) ≡ ok e
        → scan b (outer els) (deparse platform e ++ ad_as_right ∷ []) ≡ ok (array (push_back els e))
    element-right null h built = elim h [ ]
    element-right (string s) (n, h) built =
        Ending-string s ad_as_right [] h ∙ at_right b els _ (string s) built refl
    element-right (float f p) h built =
        Ending-float f p ad_as_right [] (float-IsPlain platform f p h)
        ∙ at_right b els _ (float f p) built refl
    element-right (unsigned n) h built =
        Ending-unsigned n ad_as_right [] ∙ at_right b els _ (unsigned n) built refl
    element-right (signed z) h built =
        Ending-signed z ad_as_right [] ∙ at_right b els _ (signed z) built refl
    element-right (address a) h built =
        Ending-address a ad_as_right [] ∙ at_right b els _ (address a) built refl
    element-right (array nil) h built = elim h [ ]
    element-right (array (cons e els')) (h, hs) built = array-right e els' h hs built
