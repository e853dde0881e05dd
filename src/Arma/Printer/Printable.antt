-- ===== src/Arma/Printer/Printable.antt =====
-- The values whose text is read back, and the shape of their text.
use mathlib.Core.List.{append_assoc}
use operation_front_line.Common.{
  ℕ, ◌^◌, ◌<◌, ◌≤◌, ◌≡◌, ◌≢◌, refl, ap, sym, ◌∙◌, ◌⊎◌, true, some, List, [], ◌∷◌, ◌++◌, length,
  length-append, u16, arith,
}
use operation_front_line.Arma.{
  ad_array, ad_separator, ad_as_right, ad_as_left, ad_unit, ad_string, ArmaData, null, string,
  float, unsigned, signed, address, array, has_data, Elements, nil, cons, Platform,
}
use operation_front_line.Arma.Numbers.RoundTrip.{FitsSigned}
use operation_front_line.Arma.Parser.{decimal_places}
use operation_front_line.Arma.Parser.Scalars.{Each, IsQuotable, IsPlain}
use operation_front_line.Arma.Printer.{pop_back, deparse, deparse_elements}

module _ {F : Type 0} (platform : Platform F) where
  -- The text of a float reads back as the float, and its decimal places as the precision.
  abbrev pub FloatReadsBack : F → ℕ → Type 0
  FloatReadsBack f p =
      let text = platform.to_fixed p f in
      (platform.stof text ≡ some f)
      × ((u16 (decimal_places text) ≡ p) × ((text ≢ []) × Each IsPlain text))

  abbrev pub FitsPointer : ℕ → Type 0
  FitsPointer a = (a < 2 ^ 64) × ((platform.wide_pointers ≡ true) ⊎ (a < 2 ^ 32))

  -- Strings are not empty and have no `@` and no `AD_UNIT`, numbers are of their types, arrays have elements
  -- and every element is printable.
  abbrev mutual
    pub IsPrintable : ArmaData F → Type 0
    IsPrintable null = ⊥
    IsPrintable (string s) = (s ≢ []) × Each IsQuotable s
    IsPrintable (float f p) = FloatReadsBack f p
    IsPrintable (unsigned n) = n < 2 ^ 64
    IsPrintable (signed z) = FitsSigned z
    IsPrintable (address a) = FitsPointer a
    IsPrintable (array nil) = ⊥
    IsPrintable (array (cons e els)) = IsPrintable e × AllPrintable els

    pub AllPrintable : Elements F → Type 0
    AllPrintable nil = Unit {0}
    AllPrintable (cons e els) = IsPrintable e × AllPrintable els

  -- The text that the parser builds an element from, without the quotes of a string.
  abbrev pub bare : ArmaData F → List ℕ
  bare (string s) = ad_string ∷ s
  bare e = deparse platform e

  -- Elements with separators between them.
  abbrev pub join : ArmaData F → Elements F → List ℕ
  join e nil = deparse platform e
  join e (cons e' els) = deparse platform e ++ (ad_separator ∷ join e' els)

  pub IsPrintable-has_data : (e : ArmaData F) → IsPrintable e → has_data e ≡ true
  IsPrintable-has_data null h = elim h [ ]
  IsPrintable-has_data (string s) h = refl
  IsPrintable-has_data (float f p) h = refl
  IsPrintable-has_data (unsigned n) h = refl
  IsPrintable-has_data (signed z) h = refl
  IsPrintable-has_data (address a) h = refl
  IsPrintable-has_data (array els) h = refl

  pop_back-last : (s : List ℕ) (c : ℕ) → pop_back (s ++ (c ∷ [])) ≡ s
  unfolding pop_back
  pop_back-last [] c = refl
  pop_back-last (d ∷ []) c = refl
  pop_back-last (d ∷ d' ∷ s) c = ap (λ t. d ∷ t) (pop_back-last (d' ∷ s) c)

  deparse_elements-join :
      (e : ArmaData F) (els : Elements F)
      → IsPrintable e
      → AllPrintable els
      → deparse_elements platform (cons e els) ≡ join e els ++ (ad_separator ∷ [])
  unfolding deparse
  deparse_elements-join e nil h hs = rw (IsPrintable-has_data e h) refl
  deparse_elements-join e (cons e' els) h (h', hs) = rw (IsPrintable-has_data e h) (
      ap (λ t. deparse platform e ++ (ad_separator ∷ t)) (deparse_elements-join e' els h' hs)
      ∙ sym (append_assoc (deparse platform e) (ad_separator ∷ join e' els) (ad_separator ∷ [])))

  -- A printed array is its elements in brackets, with no separator behind the last.
  pub deparse-array :
      (e : ArmaData F) (els : Elements F)
      → IsPrintable e
      → AllPrintable els
      → deparse platform (array (cons e els))
        ≡ ad_array ∷ ad_as_left ∷ join e els ++ (ad_as_right ∷ [])
  unfolding deparse
  deparse-array e els h hs =
      ap (λ t. ad_array ∷ pop_back (ad_as_left ∷ t) ++ (ad_as_right ∷ []))
        (deparse_elements-join e els h hs)
      ∙ ap (λ t. ad_array ∷ t ++ (ad_as_right ∷ []))
          (pop_back-last (ad_as_left ∷ join e els) ad_separator)

  -- The type stands in front.
  deparse_front :
      (e : ArmaData F)
      → IsPrintable e
      → (c : ℕ) × (s : List ℕ) × (deparse platform e ≡ c ∷ s) × (c ≢ ad_as_right)
  unfolding deparse
  deparse_front null h = elim h [ ]
  deparse_front (string s) h = (_, _, refl, omega arith)
  deparse_front (float f p) h = (_, _, refl, omega arith)
  deparse_front (unsigned n) h = (_, _, refl, omega arith)
  deparse_front (signed z) h = (_, _, refl, omega arith)
  deparse_front (address a) h = (_, _, refl, omega arith)
  deparse_front (array els) h = (_, _, refl, omega arith)

  pub join_front :
      (e : ArmaData F) (els : Elements F)
      → IsPrintable e
      → (c : ℕ) × (s : List ℕ) × (join e els ≡ c ∷ s) × (c ≢ ad_as_right)
  join_front e nil h = deparse_front e h
  join_front e (cons e' els) h =
      let (c, s, front, ne) = deparse_front e h in
      (c, s ++ (ad_separator ∷ join e' els), ap (λ t. t ++ (ad_separator ∷ join e' els)) front, ne)

  length-bare : (e : ArmaData F) → length (bare e) ≤ length (deparse platform e)
  unfolding deparse
  length-bare null = omega arith
  length-bare (string s) = omega (arith, length-append s (ad_unit ∷ []))
  length-bare (float f p) = omega arith
  length-bare (unsigned n) = omega arith
  length-bare (signed z) = omega arith
  length-bare (address a) = omega arith
  length-bare (array els) = omega arith

  pub length-join_first :
      (e : ArmaData F) (els : Elements F) → length (bare e) ≤ length (join e els)
  length-join_first e nil = length-bare e
  length-join_first e (cons e' els) =
      omega (arith, length-bare e, length-append (deparse platform e) (ad_separator ∷ join e' els))

  pub length-join_rest :
      (e e' : ArmaData F) (els : Elements F) → length (join e' els) ≤ length (join e (cons e' els))
  length-join_rest e e' els =
      omega (arith, length-append (deparse platform e) (ad_separator ∷ join e' els))
