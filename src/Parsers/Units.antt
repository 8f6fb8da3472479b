-- ===== src/Parsers/Units.antt =====
-- backend/app/parsers/unit_dictionary.py.
use price_checker.Base.{
  ℕ, Option, none, some, List, [], ◌∷◌, Text, codes, text_eq, if◌then◌else◌, Unicode,
}
use price_checker.Floats.{Floats}

pub data UnitCode : Type 0 where
  g ml ct sheet : UnitCode

-- A unit's name, the unit it counts in, and the factor as it is written.
abbrev pub UnitTable : Type 0
UnitTable = List (Text × UnitCode × Text)

abbrev pub weight_units : UnitTable
weight_units =
    (codes "mg", UnitCode.g, codes "0.001")
    ∷ (codes "g", UnitCode.g, codes "1.0")
    ∷ (codes "kg", UnitCode.g, codes "1000.0")
    ∷ []

abbrev pub volume_units : UnitTable
volume_units =
    (codes "ml", UnitCode.ml, codes "1.0")
    ∷ (codes "mL", UnitCode.ml, codes "1.0")
    ∷ (codes "cc", UnitCode.ml, codes "1.0")
    ∷ (codes "cl", UnitCode.ml, codes "10.0")
    ∷ (codes "l", UnitCode.ml, codes "1000.0")
    ∷ (codes "L", UnitCode.ml, codes "1000.0")
    ∷ []

abbrev pub count_units : UnitTable
count_units =
    (codes "개", UnitCode.ct, codes "1.0")
    ∷ (codes "개입", UnitCode.ct, codes "1.0")
    ∷ (codes "입", UnitCode.ct, codes "1.0")
    ∷ (codes "팩", UnitCode.ct, codes "1.0")
    ∷ (codes "세트", UnitCode.ct, codes "1.0")
    ∷ (codes "박스", UnitCode.ct, codes "1.0")
    ∷ (codes "묶음", UnitCode.ct, codes "1.0")
    ∷ (codes "봉", UnitCode.ct, codes "1.0")
    ∷ (codes "병", UnitCode.ct, codes "1.0")
    ∷ (codes "캔", UnitCode.ct, codes "1.0")
    ∷ (codes "롤", UnitCode.ct, codes "1.0")
    ∷ (codes "장", UnitCode.sheet, codes "1.0")
    ∷ (codes "매", UnitCode.sheet, codes "1.0")
    ∷ (codes "ea", UnitCode.ct, codes "1.0")
    ∷ (codes "ct", UnitCode.ct, codes "1.0")
    ∷ (codes "pcs", UnitCode.ct, codes "1.0")
    ∷ (codes "pack", UnitCode.ct, codes "1.0")
    ∷ (codes "pk", UnitCode.ct, codes "1.0")
    ∷ (codes "set", UnitCode.ct, codes "1.0")
    ∷ (codes "box", UnitCode.ct, codes "1.0")
    ∷ []

-- The alternatives of `MASS_VOLUME_UNIT_RE` and of `COUNT_UNIT_RE`, in their order.
abbrev pub mass_volume_words : List Text
mass_volume_words =
    codes "kg"
    ∷ codes "g"
    ∷ codes "mg"
    ∷ codes "ml"
    ∷ codes "mL"
    ∷ codes "cc"
    ∷ codes "cl"
    ∷ codes "L"
    ∷ codes "l"
    ∷ []

abbrev pub count_words : List Text
count_words =
    codes "개입"
    ∷ codes "개"
    ∷ codes "입"
    ∷ codes "팩"
    ∷ codes "세트"
    ∷ codes "박스"
    ∷ codes "묶음"
    ∷ codes "봉"
    ∷ codes "병"
    ∷ codes "캔"
    ∷ codes "롤"
    ∷ codes "장"
    ∷ codes "매"
    ∷ codes "pcs"
    ∷ codes "pack"
    ∷ codes "pk"
    ∷ codes "set"
    ∷ codes "box"
    ∷ codes "ct"
    ∷ codes "ea"
    ∷ []

unfoldable pub find_unit : Text → UnitTable → Option (UnitCode × Text)
find_unit name [] = none
find_unit name ((key, unit, factor) ∷ rest) =
    if text_eq key name then some (unit, factor) else find_unit name rest

abbrev pub or_else : {A : Type 0} → Option A → Option A → Option A
or_else none o = o
or_else (some a) o = some a

-- The entry of the dictionaries that `convert_to_base` goes by.
unfoldable pub unit_of : Unicode → Text → Option (UnitCode × Text)
unfolding find_unit
unit_of u unit = or_else (find_unit unit weight_units) (
    or_else (find_unit unit volume_units)
      (or_else (find_unit (u.lower unit) count_units) (find_unit unit count_units)))

unfoldable pub convert_to_base :
    {F : Type 0} → Floats F → Unicode → F → Text → Option (UnitCode × F)
unfolding unit_of
convert_to_base fl u value unit = elim (unit_of u unit) [
  | none ↦ none
  | some (base, factor) ↦ some (base, fl.times value (fl.of_text factor))
]

unfoldable pub display_base : UnitCode → ℕ × UnitCode
display_base UnitCode.g = (100, UnitCode.g)
display_base UnitCode.ml = (100, UnitCode.ml)
display_base UnitCode.ct = (1, UnitCode.ct)
display_base UnitCode.sheet = (1, UnitCode.sheet)
