-- ===== src/Collection/Normalization.antt =====
-- backend/app/price_collection/normalization.py, and the item of client.py that it reads. Prices in
-- decimals are in hundredths; `raw_excerpt`, which is only stored, is left out.
pub mod Comparable
pub mod Pieces
use price_checker.Base.{
  ℕ, suc, ◌*◌, ◌^◌, ◌&&◌, ℤ, pos, negsuc, to_nat, nat_abs, scale, Bool, true, false, max, Option,
  none, some, Text, codes, text_eq, ltb, if◌then◌else◌, Unicode,
}
use price_checker.Errors.{Result, ok, err, and_then, invalid_operation}
use price_checker.Floats.{Floats}
use price_checker.Models.Procurement.{ProcurementOrder, ResultSource}
use price_checker.Parsers.Options.{ParseResult, parse_option_text}
use price_checker.Parsers.UnitPrice.{UnitPrice, calculate_unit_price}

pub record NaverShoppingItem : Type 0 where
  pub title : Text
  pub product_url : Text
  pub listed_price : ℤ
  pub mall_name : Option Text
  pub product_id : Option Text
  pub product_type : Option Text
  pub maker : Option Text
  pub brand : Option Text
  pub category1 : Option Text
  pub category2 : Option Text
  pub category3 : Option Text
  pub category4 : Option Text

pub record CanonicalCollectedResult : Type 0 where
  pub source : ResultSource
  pub source_method : Text
  pub product_url : Text
  pub seller_name : Option Text
  pub listed_price : ℤ
  pub per_unit_price : Option ℕ
  pub shipping_fee : ℕ
  pub unit_count : ℕ
  pub external_offer_id : Option Text
  pub compare_eligible : Bool
  pub parser_version : ℕ
  pub failure_code : Option Text

-- `Decimal(str(price)).quantize(Decimal("0.01"))`, for which a decimal of 28 digits has to do.
unfoldable pub quantize : ℤ → Result ℤ
quantize price =
    if ltb (nat_abs price) (10 ^ 26) then ok (scale 100 price) else err invalid_operation

abbrev or_invalid : Option ℕ → Result ℕ
or_invalid none = err invalid_operation
or_invalid (some cents) = ok cents

-- `listed_price <= 0` in reverse.
abbrev pub is_positive : ℤ → Bool
is_positive (pos (suc n)) = true
is_positive _ = false

abbrev pub by_piece : ProcurementOrder → ℕ → Bool
by_piece order pieces = text_eq order.unit (codes "개") && ltb 0 pieces

-- The result for an item that cannot be compared.
abbrev pub rejected : NaverShoppingItem → ℤ → ℕ → Text → CanonicalCollectedResult
rejected item price parser_version code = record {
  source = ResultSource.naver;
  source_method = codes "naver_openapi";
  product_url = item.product_url;
  seller_name = item.mall_name;
  listed_price = price;
  per_unit_price = none;
  shipping_fee = 0;
  unit_count = 1;
  external_offer_id = item.product_id;
  compare_eligible = false;
  parser_version = parser_version;
  failure_code = some code;
}

abbrev pub accepted : NaverShoppingItem → ℤ → ℕ → ℕ → ℕ → CanonicalCollectedResult
accepted item price parser_version pieces per_unit = record {
  source = ResultSource.naver;
  source_method = codes "naver_openapi";
  product_url = item.product_url;
  seller_name = item.mall_name;
  listed_price = price;
  per_unit_price = some per_unit;
  shipping_fee = 0;
  unit_count = max pieces 1;
  external_offer_id = item.product_id;
  compare_eligible = true;
  parser_version = parser_version;
  failure_code = none;
}

module _ {F : Type 0} (fl : Floats F) where
  -- `Decimal(str(display or 0)).quantize(...)`
  abbrev cents_of : Option F → Result ℕ
  cents_of none = ok 0
  cents_of (some display) = or_invalid (fl.cents display)

  -- `_compute_order_unit_price` of a price above 0.
  pub compute_order_unit_price : ProcurementOrder → ℤ → ParseResult F → Result ℕ
  compute_order_unit_price order price parsed =
      let each = or_invalid (fl.quotient_cents (to_nat price) parsed.piece_count) in
      let by_unit =
        and_then (calculate_unit_price fl price (pos 0) (some parsed) (codes "known"))
          λ unit_price. cents_of unit_price.unit_price_display in
      if by_piece order parsed.piece_count then each else by_unit

  -- Behind the parser.
  unfoldable pub normalize_parsed :
      ProcurementOrder
      → NaverShoppingItem
      → ℕ
      → ℤ
      → Option (ParseResult F)
      → Result CanonicalCollectedResult
  normalize_parsed order item parser_version price none = ok (
      rejected item price parser_version
        (if is_positive item.listed_price then codes "unit_unparsed" else codes "zero_price"))
  normalize_parsed order item parser_version price (some parsed) =
      let priced =
        and_then (compute_order_unit_price order item.listed_price parsed)
          λ per_unit. ok (accepted item price parser_version parsed.piece_count per_unit) in
      if is_positive item.listed_price
      then priced
      else ok (rejected item price parser_version (codes "zero_price"))

  unfoldable pub normalize_naver_item :
      Unicode → ProcurementOrder → NaverShoppingItem → ℕ → Result CanonicalCollectedResult
  normalize_naver_item u order item parser_version = and_then (quantize item.listed_price) λ price.
      and_then (parse_option_text fl u item.title)
        λ parsed. normalize_parsed order item parser_version price parsed
