-- ===== src/Arma/Parser/RoundTrip.antt =====
-- What the printer of the data writes, the parser reads back.
use mathlib.Core.List.{append_assoc}
use operation_front_line.Common.{
  ℕ, zero, suc, ◌^◌, ◌<◌, ◌≤◌, ◌≡◌, ◌≢◌, refl, ap, sym, ◌∙◌, inl, inr, List, [], ◌∷◌, ◌++◌, length,
  length-append, arith, Bool-cases, gt→leb, ℤ, pos, negsuc,
}
use operation_front_line.Arma.{
  ad_array, ad_separator, ad_as_right, ad_as_left, ad_unit, ad_string, ad_float, ad_signed,
  ad_unsigned, ad_address, ArmaData, null, string, float, unsigned, signed, address, array,
  Elements, nil, cons, Parse, ok, Platform, ◌>>=◌,
}
use operation_front_line.Arma.Numbers.{print_number, to_string_signed}
use operation_front_line.Arma.Numbers.RoundTrip.{
  print_number-ne-nil, stoull-to_string, stoll-to_string, read_hex-print_number,
}
use operation_front_line.Arma.Parser.{
  outer, scan, push_back, build, build_type, build_address, parse_arma_data,
}
use operation_front_line.Arma.Parser.Endings.{element-separator, element-right}
use operation_front_line.Arma.Printer.{deparse}
use operation_front_line.Arma.Printer.Printable.{
  IsPrintable, AllPrintable, FitsPointer, FloatReadsBack, bare, join, deparse-array, join_front,
  length-join_first, length-join_rest,
}

module _ {F : Type 0} where
  abbrev append : Elements F → Elements F → Elements F
  append nil els' = els'
  append (cons e els) els' = cons e (append els els')

  append-push_back :
      (els : Elements F) (e : ArmaData F) (els' : Elements F)
      → append (push_back els e) els' ≡ append els (cons e els')
  unfolding push_back
  append-push_back nil e els' = refl
  append-push_back (cons d els) e els' = ap (cons d) (append-push_back els e els')

  append-nil : (els : Elements F) (e : ArmaData F) → append els (cons e nil) ≡ push_back els e
  unfolding push_back
  append-nil nil e = refl
  append-nil (cons d els) e = ap (cons d) (append-nil els e)

module _ {F : Type 0} (platform : Platform F) where
  -- A text of two characters at least is built by its type.
  build-text :
      (fuel type : ℕ) (text : List ℕ)
      → text ≢ []
      → build platform (suc fuel) (type ∷ text)
        ≡ build_type platform (build platform fuel) type text
  unfolding build
  build-text fuel type [] h = absurd (h refl)
  build-text fuel type (c ∷ text) h = refl

  build-brackets :
      (fuel : ℕ) (s : List ℕ)
      → build platform (suc fuel) (ad_array ∷ ad_as_left ∷ s)
        ≡ scan (build platform fuel) (outer nil) s
  unfolding build
  build-brackets fuel s = refl

  float-ne-nil : (f : F) (p : ℕ) → FloatReadsBack platform f p → platform.to_fixed p f ≢ []
  float-ne-nil f p (back, (places, (ne, plain))) = ne

  signed-ne-nil : (z : ℤ) → to_string_signed z ≢ []
  signed-ne-nil (pos n) = print_number-ne-nil 10 n
  signed-ne-nil (negsuc n) = cc

  build_address-FitsPointer :
      (a : ℕ) → FitsPointer platform a → build_address platform a ≡ ok (address a)
  build_address-FitsPointer a (h, inl wide) = rw wide refl
  build_address-FitsPointer a (h, inr k) = elim (Bool-cases (platform.wide_pointers)) [
    | inl wide ↦ rw wide refl
    | inr narrow ↦ rw (narrow, gt→leb {a = 2 ^ 32} {b = a} (omega arith)) refl
  ]

  build-float :
      (b : List ℕ → Parse (ArmaData F)) (f : F) (p : ℕ)
      → FloatReadsBack platform f p
      → build_type platform b ad_float (platform.to_fixed p f) ≡ ok (float f p)
  build-float b f p (back, (places, h)) = rw (back, places) refl

  -- A scan over the elements in brackets collects them.
  scan-join :
      (b : List ℕ → Parse (ArmaData F)) (n : ℕ)
      → ((e : ArmaData F)
          → IsPrintable platform e
          → length (bare platform e) ≤ n
          → b (bare platform e) ≡ ok e)
      → (done : Elements F) (e : ArmaData F) (els : Elements F) → IsPrintable platform e
      → AllPrintable platform els
      → length (join platform e els) ≤ n
      → scan b (outer done) (join platform e els ++ (ad_as_right ∷ []))
        ≡ ok (array (append done (cons e els)))
  scan-join b n reads done e nil h hs le =
      element-right platform b done e h
        (reads e h (omega (arith, length-join_first platform e nil)))
      ∙ ap (λ x. ok (array x)) (sym (append-nil done e))
  scan-join b n reads done e (cons e' els) h (h', hs) le =
      let (c, s, front, ne) = join_front platform e' els h' in
      ap (scan b (outer done))
        (append_assoc (deparse platform e) (ad_separator ∷ join platform e' els) (ad_as_right ∷ []))
      ∙ ap
          (λ t.
            scan b (outer done) (deparse platform e ++ (ad_separator ∷ t ++ (ad_as_right ∷ []))))
          front
      ∙ element-separator platform b done e c (s ++ (ad_as_right ∷ [])) h
          (reads e h (omega (arith, le, length-join_first platform e (cons e' els)))) ne
      ∙ ap (λ t. scan b (outer (push_back done e)) (t ++ (ad_as_right ∷ []))) (sym front)
      ∙ scan-join b n reads (push_back done e) e' els h' hs
          (omega (arith, le, length-join_rest platform e e' els))
      ∙ ap (λ x. ok (array x)) (append-push_back done e (cons e' els))

  build-bare :
      (fuel : ℕ) (e : ArmaData F)
      → IsPrintable platform e
      → length (bare platform e) < fuel
      → build platform fuel (bare platform e) ≡ ok e
  unfolding deparse
  build-bare zero e h lt = absurd (omega arith)
  build-bare (suc fuel) null h lt = elim h [ ]
  build-bare (suc fuel) (string s) (ne, h) lt = build-text fuel ad_string s ne
  build-bare (suc fuel) (float f p) h lt =
      build-text fuel ad_float (platform.to_fixed p f) (float-ne-nil f p h)
      ∙ build-float (build platform fuel) f p h
  build-bare (suc fuel) (unsigned n) h lt =
      build-text fuel ad_unsigned (print_number 10 n) (print_number-ne-nil 10 n)
      ∙ ap (λ r. r >>= (λ a. ok (unsigned a))) (stoull-to_string n h)
  build-bare (suc fuel) (signed z) h lt =
      build-text fuel ad_signed (to_string_signed z) (signed-ne-nil z)
      ∙ ap (λ r. r >>= (λ a. ok (signed a))) (stoll-to_string z h)
  build-bare (suc fuel) (address a) (h, k) lt =
      build-text fuel ad_address (print_number 16 a) (print_number-ne-nil 16 a)
      ∙ ap (build_address platform) (read_hex-print_number a h)
      ∙ build_address-FitsPointer a (h, k)
  build-bare (suc fuel) (array nil) h lt = elim h [ ]
  build-bare (suc fuel) (array (cons e els)) (h, hs) lt =
      ap (build platform (suc fuel)) (deparse-array platform e els h hs)
      ∙ build-brackets fuel (join platform e els ++ (ad_as_right ∷ []))
      ∙ scan-join (build platform fuel) (length (join platform e els))
          (λ e' h' le. build-bare fuel e' h' (
            omega (
              arith,
              le,
              lt,
              ap length (deparse-array platform e els h hs),
              length-append (join platform e els) (ad_as_right ∷ []),
            )))
          nil e els h hs (omega arith)

  -- What the parser makes of the text of data: a string that stands alone keeps its quotes.
  abbrev pub read_back : ArmaData F → ArmaData F
  read_back (string s) = string (ad_unit ∷ s ++ (ad_unit ∷ []))
  read_back e = e

  -- Printable data is read back; a string that stands in no array comes back with an `AD_UNIT` on each side.
  pub parse_arma_data-deparse :
      (e : ArmaData F)
      → IsPrintable platform e
      → parse_arma_data platform (deparse platform e) ≡ ok (read_back e)
  unfolding deparse build
  parse_arma_data-deparse null h = elim h [ ]
  parse_arma_data-deparse (string s) h = refl
  parse_arma_data-deparse (float f p) h =
      build-bare (suc (length (deparse platform (float f p)))) (float f p) h (omega arith)
  parse_arma_data-deparse (unsigned n) h =
      build-bare (suc (length (deparse platform (unsigned n)))) (unsigned n) h (omega arith)
  parse_arma_data-deparse (signed z) h =
      build-bare (suc (length (deparse platform (signed z)))) (signed z) h (omega arith)
  parse_arma_data-deparse (address a) h =
      build-bare (suc (length (deparse platform (address a)))) (address a) h (omega arith)
  parse_arma_data-deparse (array els) h =
      build-bare (suc (length (deparse platform (array els)))) (array els) h (omega arith)
