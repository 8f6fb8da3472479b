-- ===== src/Parsers/UnitPrice.antt =====
-- backend/app/parsers/unit_price.py. A price may be below 0, a total is not.
pub mod Trust
use price_checker.Base.{
  ℕ, ℤ, ◌+ℤ◌, to_nat, Bool, true, false, not, Option, none, some, Text, codes, text_eq,
  if◌then◌else◌,
}
use price_checker.Errors.{Result, ok, err, and_then, or_overflow}
use price_checker.Floats.{Floats}
use price_checker.Parsers.Units.{UnitCode, display_base}
use price_checker.Parsers.Options.{ParseResult}

-- `low < medium < high`
pub data Confidence : Type 0 where
  high medium low : Confidence

pub record UnitPrice (F : Type 0) : Type 0 where
  pub total_price : ℕ
  pub unit_quantity : Option F
  pub unit_price : Option F
  pub unit_price_display : Option F
  pub display_base_value : ℕ
  pub display_base_unit : UnitCode
  pub unit_price_confidence : Confidence

unfoldable pub base_confidence : Text → Confidence
base_confidence parsed_confidence =
    if text_eq parsed_confidence (codes "llm")
    then Confidence.medium
    else if text_eq parsed_confidence (codes "rule")
    then Confidence.high
    else Confidence.low

abbrev estimated : Confidence → Confidence
estimated Confidence.high = Confidence.medium
estimated _ = Confidence.low

module _ {F : Type 0} where
  -- `_confidence_for`
  unfoldable pub confidence_for : Option (ParseResult F) → Text → Confidence
  confidence_for none shipping_confidence = Confidence.low
  confidence_for (some parsed) shipping_confidence =
      let base = base_confidence parsed.confidence in
      if text_eq shipping_confidence (codes "estimated")
      then estimated base
      else if text_eq shipping_confidence (codes "unknown")
      then Confidence.low
      else base

  -- The answer where there is no quantity to divide by.
  abbrev pub unpriced : ℕ → UnitPrice F
  unpriced total = record {
    total_price = total;
    unit_quantity = none;
    unit_price = none;
    unit_price_display = none;
    display_base_value = 1;
    display_base_unit = UnitCode.ct;
    unit_price_confidence = Confidence.low;
  }

module _ {F : Type 0} (fl : Floats F) where
  -- The answer where there is one.
  unfoldable pub priced : ℕ → ParseResult F → Text → Result (UnitPrice F)
  priced total parsed shipping_confidence = and_then (or_overflow (fl.of_nat total)) λ price.
      let raw = fl.over price parsed.unit_quantity in
      let (base_value, base_unit) = display_base parsed.unit in
      and_then (or_overflow (fl.of_nat base_value)) λ base. ok (record {
        total_price = total;
        unit_quantity = some parsed.unit_quantity;
        unit_price = some raw;
        unit_price_display = some (fl.times raw base);
        display_base_value = base_value;
        display_base_unit = base_unit;
        unit_price_confidence = confidence_for (some parsed) shipping_confidence;
      })

  unfoldable pub calculate_unit_price : ℤ → ℤ → Option (ParseResult F) → Text → Result (UnitPrice F)
  calculate_unit_price option_price shipping_fee none shipping_confidence =
      ok (unpriced (to_nat (option_price +ℤ shipping_fee)))
  calculate_unit_price option_price shipping_fee (some parsed) shipping_confidence =
      let total = to_nat (option_price +ℤ shipping_fee) in
      let answer = priced total parsed shipping_confidence in
      if fl.positive parsed.unit_quantity then answer else ok (unpriced total)
