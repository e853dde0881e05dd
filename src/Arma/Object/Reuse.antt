-- ===== src/Arma/Object/Reuse.antt =====
-- An object that data is parsed into, whatever it held.
use operation_front_line.Common.{Option, none, some, if◌then◌else◌, ℕ}
use operation_front_line.Arma.{ArmaData, float, array, Elements, nil, Platform}
use operation_front_line.Arma.Object.{ArmaObject}

module _ {F : Type 0} (platform : Platform F) where
  -- The elements of an array.
  abbrev pub elements_of : ArmaData F → Elements F
  elements_of (array els) = els
  elements_of _ = nil

  -- The places of a float, and of any other data none.
  abbrev pub places_of : ArmaData F → Option ℕ
  places_of (float f p) = some p
  places_of _ = none

  -- Of an object that is protected nothing is lost, of any other one the elements of its array.
  abbrev pub lost : ArmaObject F → Elements F
  lost o = if o.data_protection then nil else elements_of o.value
