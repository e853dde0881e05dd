-- ===== src/Arma/Object.antt =====
-- OPFL/ThreadHive.h, `ArmaData` as an object: `SetData`, `AsType`, `ClearData`, the precision and the
-- protection of the data, and `ParseArmaData` into an object that may hold data already. A call that clears the
-- object answers the elements that it deletes.
pub mod Reuse
use operation_front_line.Common.{ℕ, Bool, true, false, List, [], ◌∷◌, if◌then◌else◌, ℤ}
use operation_front_line.Arma.{
  ArmaData, null, string, float, unsigned, signed, address, array, has_data, Elements, nil,
  as_type_error, Parse, ok, terminates, ◌>>=◌, Platform,
}
use operation_front_line.Arma.Parser.{parse_arma_data}

-- `precision` is that of the float, if there is one.
pub record ArmaObject (F : Type 0) : Type 0 where
  pub value : ArmaData F
  pub precision : ℕ
  pub data_protection : Bool

module _ {F : Type 0} where
  -- `ArmaData()`, which leaves the precision as the memory was.
  abbrev pub new_object : ℕ → ArmaObject F
  new_object memory = record { value = null; precision = memory; data_protection = false }

  -- What `ClearData` answers, by the type, and the elements that it deletes.
  abbrev pub clears : ArmaData F → Bool
  clears null = false
  clears (string s) = true
  clears (float f p) = true
  clears (unsigned n) = true
  clears (signed z) = true
  clears (address a) = true
  clears (array els) = false

  abbrev pub deleted : Bool → ArmaData F → Elements F
  deleted protection null = nil
  deleted protection (string s) = nil
  deleted protection (float f p) = nil
  deleted protection (unsigned n) = nil
  deleted protection (signed z) = nil
  deleted protection (address a) = nil
  deleted true (array els) = nil
  deleted false (array els) = els

  -- `ClearData`
  unfoldable pub clear_data : ArmaObject F → Bool × Elements F × ArmaObject F
  clear_data o =
      (clears (o.value), deleted (o.data_protection) (o.value), record o { value = null })

  -- An object without its data, if it had some.
  abbrev pub emptied : ArmaObject F → Elements F × ArmaObject F
  emptied o =
      if has_data (o.value) then (let (answer, gone, o') = clear_data o in (gone, o')) else (nil, o)

  -- The overloads of `SetData`, which all answer true.
  abbrev pub set_value : ArmaObject F → ArmaData F → Elements F × ArmaObject F
  set_value o e = let (gone, o') = emptied o in (gone, record o' { value = e })

  pub set_string : ArmaObject F → List ℕ → Elements F × ArmaObject F
  set_string o s = set_value o (string s)

  unfoldable pub set_float : ArmaObject F → F → Elements F × ArmaObject F
  set_float o f = set_value o (float f (o.precision))

  pub set_unsigned : ArmaObject F → ℕ → Elements F × ArmaObject F
  set_unsigned o n = set_value o (unsigned n)

  pub set_signed : ArmaObject F → ℤ → Elements F × ArmaObject F
  set_signed o z = set_value o (signed z)

  pub set_address : ArmaObject F → ℕ → Elements F × ArmaObject F
  set_address o a = set_value o (address a)

  pub set_array : ArmaObject F → Elements F → Elements F × ArmaObject F
  set_array o els = set_value o (array els)

  -- `AsType`, by the type that it is asked for.
  abbrev pub as_string : ArmaData F → Parse (List ℕ)
  as_string (string s) = ok s
  as_string _ = terminates as_type_error

  abbrev pub as_float : ArmaData F → Parse F
  as_float (float f p) = ok f
  as_float _ = terminates as_type_error

  abbrev pub as_unsigned : ArmaData F → Parse ℕ
  as_unsigned (unsigned n) = ok n
  as_unsigned _ = terminates as_type_error

  abbrev pub as_signed : ArmaData F → Parse ℤ
  as_signed (signed z) = ok z
  as_signed _ = terminates as_type_error

  abbrev pub as_address : ArmaData F → Parse ℕ
  as_address (address a) = ok a
  as_address _ = terminates as_type_error

  abbrev pub as_array : ArmaData F → Parse (Elements F)
  as_array (array els) = ok els
  as_array _ = terminates as_type_error

  -- `SetPrecision`, `GetPrecision`, `SetDataProtection` and `GetDataProtection`.
  abbrev pub with_precision : ℕ → ArmaData F → ArmaData F
  with_precision p (float f q) = float f p
  with_precision p e = e

  pub set_precision : ℕ → ArmaObject F → ArmaObject F
  set_precision p o = record o { value = with_precision p (o.value); precision = p }

  pub get_precision : ArmaObject F → ℕ
  get_precision o = o.precision

  pub set_data_protection : Bool → ArmaObject F → ArmaObject F
  set_data_protection on o = record o { data_protection = on }

  pub get_data_protection : ArmaObject F → Bool
  get_data_protection o = o.data_protection

  -- The precision after data was built: that of a float, or else what it was.
  abbrev pub precision_after : ArmaData F → ℕ → ℕ
  precision_after (float f p) q = p
  precision_after e q = q

  -- `ParseArmaData`, with its answer. An empty text leaves the object as it is.
  pub parse_into : Platform F → ArmaObject F → List ℕ → Parse (Bool × Elements F × ArmaObject F)
  parse_into platform o [] = ok (false, nil, o)
  parse_into platform o (c ∷ s) = parse_arma_data platform (c ∷ s) >>= (λ e.
      let (gone, o') = emptied o in
      ok (has_data e, gone, record o' { value = e; precision = precision_after e (o.precision) }))
