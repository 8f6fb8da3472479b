-- ===== src/Search/Ranking.antt =====
-- backend/app/services/ranking_service.py.
use price_checker.Base.{
  ℕ, Bool, true, false, not, Option, none, some, List, [], ◌∷◌, map, filter, any, sort_by,
  if◌then◌else◌, ◌==◌,
}
use price_checker.Floats.{Floats}
use price_checker.Parsers.Units.{UnitCode}
use price_checker.Parsers.UnitPrice.{UnitPrice}

pub data ComparableGroup : Type 0 where
  by_weight by_volume by_count mixed unknown : ComparableGroup

pub record RankItem (F Payload : Type 0) : Type 0 where
  pub unit_price : UnitPrice F
  pub payload : Payload

-- The order of `_null_last_key`: a missing price behind every price.
abbrev price_le : {F : Type 0} → Floats F → Option F → Option F → Bool
price_le fl (some p) (some q) = fl.le p q
price_le fl (some p) none = true
price_le fl none (some q) = false
price_le fl none none = true

abbrev unit_code : UnitCode → ℕ
unit_code UnitCode.g = 0
unit_code UnitCode.ml = 1
unit_code UnitCode.ct = 2
unit_code UnitCode.sheet = 3

group_of_unit : UnitCode → ComparableGroup
group_of_unit UnitCode.g = ComparableGroup.by_weight
group_of_unit UnitCode.ml = ComparableGroup.by_volume
group_of_unit _ = ComparableGroup.by_count

-- The group of a set of units, given as a list with repetitions.
group_of_units : List UnitCode → ComparableGroup
group_of_units [] = ComparableGroup.unknown
group_of_units (unit ∷ more) =
    if any (λ other. not (unit_code other == unit_code unit)) more
    then ComparableGroup.mixed
    else group_of_unit unit

module _ {F Payload : Type 0} (fl : Floats F) where
  abbrev null_last : RankItem F Payload → RankItem F Payload → Bool
  null_last a b = price_le fl a.unit_price.unit_price b.unit_price.unit_price

  pub rank_by_unit_price : List (RankItem F Payload) → List (RankItem F Payload)
  rank_by_unit_price items = sort_by null_last items

  -- A quantity that is there and is not 0.
  abbrev has_quantity : RankItem F Payload → Bool
  has_quantity i = elim i.unit_price.unit_quantity [ none ↦ false | some q ↦ fl.positive q ]

  pub compute_comparable_group : List (RankItem F Payload) → ComparableGroup
  compute_comparable_group items =
      group_of_units (
        map (λ (i : RankItem F Payload). i.unit_price.display_base_unit)
          (filter has_quantity items))
