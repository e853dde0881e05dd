-- ===== src/Arma/Message/RoundTrip.antt =====
-- What the printer of the messages writes, the parser reads back, and the parser comes to an end.
use mathlib.Core.List.{append_assoc, append-nil}
use operation_front_line.Common.{
  ℕ, ◌≡◌, ◌≢◌, refl, ap, sym, ◌∙◌, ◌⊎◌, inl, inr, Bool, true, false, List, [], ◌∷◌, ◌++◌, if_holds,
  ne→==,
}
use operation_front_line.Arma.{
  ad_separator, ArmaData, null, string, float, unsigned, signed, address, array, nil, Parse, ok,
  terminates, throws, undefined, exhausted, ◌>>=◌, Platform,
}
use operation_front_line.Arma.Parser.{parse_arma_data}
use operation_front_line.Arma.Parser.Scalars.{Each}
use operation_front_line.Arma.Parser.RoundTrip.{read_back, parse_arma_data-deparse}
use operation_front_line.Arma.Parser.Termination.{parse_arma_data-ends}
use operation_front_line.Arma.Printer.{deparse}
use operation_front_line.Arma.Printer.Printable.{IsPrintable, IsPrintable-has_data, join_front}
use operation_front_line.Arma.Message.{
  message, null_func, read_name, parse_named, parse_message, separator, deparse_message,
}

-- A function's name: not empty, no type in front, and no separator in it.
abbrev pub IsName : List ℕ → Type 0
IsName [] = ⊥
IsName (c ∷ s) = (null_func c ≡ false) × Each (λ d. d ≢ ad_separator) (c ∷ s)

-- A name is read up to the separator or the end.
read_name-separator :
    (name rest : List ℕ)
    → Each (λ d. d ≢ ad_separator) name
    → read_name (name ++ ad_separator ∷ rest) ≡ (name, ad_separator ∷ rest)
unfolding read_name
read_name-separator [] rest h = refl
read_name-separator (c ∷ s) rest (h, hs) = rw (ne→== h, read_name-separator s rest hs) refl

read_name-end : (name : List ℕ) → Each (λ d. d ≢ ad_separator) name → read_name name ≡ (name, [])
unfolding read_name
read_name-end [] h = refl
read_name-end (c ∷ s) (h, hs) = rw (ne→== h, read_name-end s hs) refl

then-ends :
    {A B : Type 0} (r : Parse A) (f : A → B) → r ≢ exhausted → (r >>= (λ d. ok (f d))) ≢ exhausted
then-ends (ok a) f h = cc
then-ends (terminates e) f h = cc
then-ends throws f h = cc
then-ends undefined f h = cc
then-ends exhausted f h = absurd (h refl)

module _ {F : Type 0} (platform : Platform F) where
  -- The data of a message: none, or printable.
  abbrev pub IsContent : ArmaData F → Type 0
  IsContent e = (e ≡ null) ⊎ IsPrintable platform e

  -- The name of a message with a function, and of one without.
  abbrev pub Fits : Bool → List ℕ → Type 0
  Fits true name = IsName name
  Fits false name = name ≡ []

  parse_named-data :
      (name : List ℕ) (e : ArmaData F)
      → IsPrintable platform e
      → parse_named platform (name, ad_separator ∷ deparse platform e)
        ≡ ok (message name true (read_back platform e))
  parse_named-data name e h =
      let (c, s, front, ne) = join_front platform e nil h in
      ap (λ t. parse_named platform (name, ad_separator ∷ t)) front
      ∙ ap (λ t. parse_arma_data platform t >>= (λ d. ok (message name true d))) (sym front)
      ∙ ap (λ r. r >>= (λ d. ok (message name true d))) (parse_arma_data-deparse platform e h)

  parse_message-name :
      (c : ℕ) (s : List ℕ)
      → null_func c ≡ false
      → parse_message platform (c ∷ s) ≡ parse_named platform (read_name (c ∷ s))
  unfolding parse_message
  parse_message-name c s h = rw h refl

  named-null :
      (name : List ℕ)
      → IsName name
      → parse_message platform (deparse_message platform (message name true null))
        ≡ ok (message name true null)
  unfolding deparse_message deparse
  named-null [] h = elim h [ ]
  named-null (c ∷ s) (h, hs) =
      ap (parse_message platform) (append-nil (c ∷ s ++ []) ∙ append-nil (c ∷ s))
      ∙ parse_message-name c s h
      ∙ ap (parse_named platform) (read_name-end (c ∷ s) hs)

  named-data :
      (name : List ℕ) (e : ArmaData F)
      → IsName name
      → IsPrintable platform e
      → parse_message platform (deparse_message platform (message name true e))
        ≡ ok (message name true (read_back platform e))
  unfolding deparse_message
  named-data [] e h k = elim h [ ]
  named-data (c ∷ s) e (h, hs) k =
      ap (λ x. parse_message platform (c ∷ s ++ separator platform x ++ deparse platform e))
        (IsPrintable-has_data platform e k)
      ∙ ap (parse_message platform) (append_assoc (c ∷ s) (ad_separator ∷ []) (deparse platform e))
      ∙ parse_message-name c (s ++ ad_separator ∷ deparse platform e) h
      ∙ ap (parse_named platform) (read_name-separator (c ∷ s) (deparse platform e) hs)
      ∙ parse_named-data (c ∷ s) e k

  unnamed-data :
      (e : ArmaData F)
      → IsPrintable platform e
      → parse_message platform (deparse_message platform (message [] false e))
        ≡ ok (message [] false (read_back platform e))
  unfolding parse_message deparse_message deparse
  unnamed-data e h =
      typed e h
      ∙ ap (λ r. r >>= (λ d. ok (message [] false d))) (parse_arma_data-deparse platform e h)
    where
      typed :
          (e : ArmaData F)
          → IsPrintable platform e
          → parse_message platform (deparse platform e)
            ≡ (parse_arma_data platform (deparse platform e) >>= (λ d. ok (message [] false d)))
      typed null h = elim h [ ]
      typed (string s) h = refl
      typed (float f p) h = refl
      typed (unsigned n) h = refl
      typed (signed z) h = refl
      typed (address a) h = refl
      typed (array els) h = refl

  unnamed-null :
      parse_message platform (deparse_message platform (message [] false null))
      ≡ ok (message [] false null)
  unfolding parse_message deparse_message deparse
  unnamed-null = refl

  -- A message is read back with its name and its data, where it has no data or printable data; and where it has
  -- either no function and no name, or a name that is not empty, has no separator and starts with no character
  -- of a type. A string that is the whole data comes back with an `AD_UNIT` on each side.
  pub parse_message-deparse_message :
      (name : List ℕ) (has_func : Bool) (e : ArmaData F)
      → Fits has_func name
      → IsContent e
      → parse_message platform (deparse_message platform (message name has_func e))
        ≡ ok (message name has_func (read_back platform e))
  parse_message-deparse_message name true e h (inl k) = rw k (named-null name h)
  parse_message-deparse_message name true e h (inr k) = named-data name e h k
  parse_message-deparse_message name false e h (inl k) = rw (h, k) unnamed-null
  parse_message-deparse_message name false e h (inr k) = rw h (unnamed-data e k)

  named-ends : (p : List ℕ × List ℕ) → parse_named platform p ≢ exhausted
  named-ends (name, []) = cc
  named-ends (name, c ∷ []) = cc
  named-ends (name, c ∷ d ∷ text) =
      then-ends (parse_arma_data platform (d ∷ text)) (message name true)
        (parse_arma_data-ends platform (d ∷ text))

  -- The parser of messages answers a message, ends the process, throws or reads behind the text.
  pub parse_message-ends : (text : List ℕ) → parse_message platform text ≢ exhausted
  unfolding parse_message
  parse_message-ends [] = cc
  parse_message-ends (c ∷ s) =
      if_holds (λ r. r ≢ exhausted) (null_func c) _ _
        (then-ends (parse_arma_data platform (c ∷ s)) (message [] false)
          (parse_arma_data-ends platform (c ∷ s)))
        (named-ends (read_name (c ∷ s)))
