-- ===== src/Arma/Parser/Typed.antt =====
-- What the parser builds is well typed.
use mathlib.Core.Path.{subst}
use operation_front_line.Common.{
  ℕ, zero, suc, ◌^◌, ◌<◌, ◌≡◌, ◌≢◌, refl, ◌⊎◌, inl, inr, Bool, true, false, not, ◌&&◌, Option, none,
  some, List, [], ◌∷◌, if_holds, if_cases, length, leb, ◌==◌, arith,
}
use operation_front_line.Arma.{
  ad_string, ad_float, ad_unsigned, ad_signed, ad_address, ad_array, ArmaData, string, unsigned,
  signed, address, parse_error_type, Parse, ok, terminates, Platform,
}
use operation_front_line.Arma.Numbers.{stoull, stoll, read_hex}
use operation_front_line.Arma.Numbers.RoundTrip.{FitsSigned}
use operation_front_line.Arma.Numbers.Range.{
  Answers, then-Answers, stoull-Answers, stoll-Answers, read_hex-lt,
}
use operation_front_line.Arma.Parser.{
  build_float, build_address, build_type, build, parse_arma_data,
}
use operation_front_line.Arma.Parser.TypedLoops.{IsWellTyped, build_array-Answers}

module _ {F : Type 0} (platform : Platform F) where
  build_float-Answers :
      (f : Option F) (text : List ℕ) → Answers (IsWellTyped platform) (build_float platform f text)
  build_float-Answers none text = tt
  build_float-Answers (some f) text = inr (omega arith)

  build_address-Answers :
      (a : ℕ) → a < 2 ^ 64 → Answers (IsWellTyped platform) (build_address platform a)
  build_address-Answers a h =
      if_cases (Answers (IsWellTyped platform)) (not (platform.wide_pointers) && leb (2 ^ 32) a)
        (terminates parse_error_type) (ok (address a)) tt
        (λ small. inr (h, fits (platform.wide_pointers) small))
    where
      fits : (w : Bool) → (not w && leb (2 ^ 32) a) ≡ false → (w ≡ true) ⊎ (a < 2 ^ 32)
      fits true small = inl refl
      fits false small = inr (ground arith)

  build_type-Answers :
      (b : List ℕ → Parse (ArmaData F)) (type : ℕ) (text : List ℕ)
      → text ≢ []
      → ((text' : List ℕ) → Answers (IsWellTyped platform) (b text'))
      → Answers (IsWellTyped platform) (build_type platform b type text)
  build_type-Answers b type text ne typed =
      if_holds (Answers (IsWellTyped platform)) (type == ad_string) (ok (string text)) _ (inr ne) (
        if_holds (Answers (IsWellTyped platform)) (type == ad_float) _ _
          (build_float-Answers (platform.stof text) text)
          (if_holds (Answers (IsWellTyped platform)) (type == ad_signed) _ _
            (then-Answers FitsSigned (IsWellTyped platform) signed (stoll text) (stoll-Answers text)
              (λ z h. inr h))
            (if_holds (Answers (IsWellTyped platform)) (type == ad_unsigned) _ _
              (then-Answers (λ n. n < 2 ^ 64) (IsWellTyped platform) unsigned (stoull text)
                (stoull-Answers text) (λ n h. inr h))
              (if_holds (Answers (IsWellTyped platform)) (type == ad_array) _ _
                (build_array-Answers platform b typed text)
                (if_holds (Answers (IsWellTyped platform)) (type == ad_address) _
                  (terminates parse_error_type)
                  (build_address-Answers (read_hex text) (read_hex-lt text)) tt)))))

  build-Answers :
      (fuel : ℕ) (text : List ℕ) → Answers (IsWellTyped platform) (build platform fuel text)
  unfolding build
  build-Answers zero text = tt
  build-Answers (suc fuel) [] = inl refl
  build-Answers (suc fuel) (type ∷ []) = tt
  build-Answers (suc fuel) (type ∷ c ∷ rest) =
      build_type-Answers (build platform fuel) type (c ∷ rest) (λ e. cc) (build-Answers fuel)

  -- Whatever the text, data that the parser answers is well typed.
  pub parse_arma_data-IsWellTyped :
      (text : List ℕ) (e : ArmaData F)
      → parse_arma_data platform text ≡ ok e
      → IsWellTyped platform e
  parse_arma_data-IsWellTyped text e h =
      subst (Answers (IsWellTyped platform)) h (build-Answers (suc (length text)) text)
