-- ===== src/Collection/Normalization/Pieces.antt =====
-- An item that is sold by the piece, from its title to the price of a piece, in
-- backend/app/price_collection/normalization.py and backend/app/parsers.
use price_checker.Base.{
  ℕ, zero, suc, ◌+◌, ◌*◌, ◌/◌, ◌<◌, true, ◌≡◌, refl, arith, some, ◌++◌, codes, text_eq_refl,
  Unicode, Text, pos, All, All-map, str_int,
}
use price_checker.Errors.{ok}
use price_checker.Floats.{Floats, decimal_limit}
use price_checker.Models.Procurement.{ProcurementOrder}
use price_checker.Parsers.Units.{UnitCode}
use price_checker.Parsers.Options.{ParseResult, parse_option_text}
use price_checker.Parsers.Options.Hangul.{hangul_units, count_of, ReadsCount, parse-hangul_units}
use price_checker.Collection.Normalization.{
  NaverShoppingItem, quantize, by_piece, normalize_parsed, compute_order_unit_price,
  normalize_naver_item, accepted,
}

quantize_ok : (p : ℕ) → p < decimal_limit → quantize (pos p) ≡ ok (pos (100 * p))
unfolding quantize
quantize_ok p h = ground arith

module _ {F : Type 0} (fl : Floats F) (u : Unicode) (order : ProcurementOrder) (version : ℕ)
    (piece : order.unit ≡ codes "개") where
  price_of_piece :
      (p : ℕ) (parsed : ParseResult F)
      → p < decimal_limit
      → 0 < parsed.piece_count
      → parsed.piece_count < decimal_limit
      → compute_order_unit_price fl order (pos p) parsed
        ≡ ok ((200 * p + parsed.piece_count) / (2 * parsed.piece_count))
  unfolding compute_order_unit_price
  price_of_piece p parsed hp some_pieces few =
      let test : by_piece order parsed.piece_count ≡ true =
        rw (piece, text_eq_refl (codes "개")) (ground arith) in
      rw (test, fl.quotient_cents-Rounded p parsed.piece_count hp some_pieces few) refl

  normalize_pieces :
      (item : NaverShoppingItem) (p : ℕ) (parsed : ParseResult F)
      → item.listed_price ≡ pos p
      → 0 < p
      → p < decimal_limit
      → parse_option_text fl u item.title ≡ ok (some parsed)
      → 0 < parsed.piece_count
      → parsed.piece_count < decimal_limit
      → normalize_naver_item fl u order item version
        ≡ ok (
            accepted item
              (pos (100 * p))
              version
              parsed.piece_count
              ((200 * p + parsed.piece_count) / (2 * parsed.piece_count)))
  unfolding normalize_naver_item normalize_parsed
  normalize_pieces item zero parsed listed more hp read some_pieces few = absurd (omega arith)
  normalize_pieces item (suc p) parsed listed more hp read some_pieces few =
      rw (listed, quantize_ok (suc p) hp, read, price_of_piece (suc p) parsed hp some_pieces few)
        refl

  -- For an order in pieces, an item whose title is a number from 1 to below 10^12 and a unit
  -- of the dictionary that is written in Hangul, and whose price is from 1 to below 10^12,
  -- becomes a comparable result with that many pieces, whose unit price is the price by the
  -- number, rounded half up to hundredths.
  pub normalize-hangul_units :
      (item : NaverShoppingItem) (n p : ℕ)
      → 0 < n
      → n < decimal_limit
      → 0 < p
      → p < decimal_limit
      → All
          (λ (x : Text × UnitCode).
            normalize_naver_item fl u order
              (record item { title = str_int n ++ x.0; listed_price = pos p })
              version
            ≡ ok (accepted item (pos (100 * p)) version n ((200 * p + n) / (2 * n))))
          hangul_units
  normalize-hangul_units item n p some_pieces few more hp =
      All-map (ReadsCount u fl n) _ hangul_units
        (λ x read.
          normalize_pieces (record item { title = str_int n ++ x.0; listed_price = pos p }) p
            (count_of u fl n x) refl more hp read some_pieces few)
        (parse-hangul_units u fl n (omega arith))
