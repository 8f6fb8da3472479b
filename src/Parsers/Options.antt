-- ===== src/Parsers/Options.antt =====
-- `parse_option_text` of backend/app/parsers/regex_parser.py.
pub mod Unread
pub mod Counts
pub mod Hangul
pub mod Places
use price_checker.Base.{
  ℕ, suc, ◌*◌, Bool, true, false, ◌||◌, Option, none, some, ◌∷◌, [], List, map, Text, codes, ◌==◌,
  if◌then◌else◌, Unicode, strip,
}
use price_checker.Errors.{Result, ok, err, and_then, or_overflow}
use price_checker.Floats.{Floats}
use price_checker.Regex.{Regex, Found, search_pattern, group_of}
use price_checker.Parsers.Units.{UnitCode, convert_to_base}
use price_checker.Parsers.Patterns.{
  total_explicit, parenthesis_detail, n_by_m_with_total, volume_x_count, volume_space_count,
  simple_count, bonus_combo, comma_combo,
}

pub record ParseResult (F : Type 0) : Type 0 where
  pub unit : UnitCode
  pub unit_quantity : F
  pub piece_count : ℕ
  pub pack_count : ℕ
  pub bonus_quantity : ℕ
  pub confidence : Text
  pub raw_match : Text

abbrev pub normal : ℕ → ℕ
normal c = if c == b'X' || c == 215 then b'x' else c

-- `_normalize`
pub normalize : Text → Text
normalize text = map normal text

-- `m.group(n)` of a group that takes part in each match.
abbrev pub text_of : ℕ → List (ℕ × Text) → Text
text_of n groups = elim (group_of n groups) [ none ↦ [] | some s ↦ s ]

-- The outcome of one pattern: a result, nothing, in which case the next one is tried, or an exception.
abbrev pub or_next :
    {F : Type 0}
    → Result (Option (ParseResult F))
    → Result (Option (ParseResult F))
    → Result (Option (ParseResult F))
or_next (ok none) next = next
or_next (ok (some r)) next = ok (some r)
or_next (err e) next = err e

module _ {F : Type 0} (fl : Floats F) (u : Unicode) where
  -- `int(float(value))`
  pub to_int : Text → Result ℕ
  to_int value = or_overflow (fl.truncate (fl.of_text value))

  abbrev pub rule : UnitCode → F → ℕ → ℕ → ℕ → Text → ParseResult F
  rule unit quantity pieces packs bonus raw = record {
    unit = unit;
    unit_quantity = quantity;
    piece_count = pieces;
    pack_count = packs;
    bonus_quantity = bonus;
    confidence = codes "rule";
    raw_match = raw;
  }

  -- `float(count)` and `per_qty * count`
  to_float : ℕ → Result F
  to_float count = or_overflow (fl.of_nat count)

  -- A pattern that is found or not.
  abbrev on_match :
      Option (Found u)
      → (Found u → Result (Option (ParseResult F)))
      → Result (Option (ParseResult F))
  on_match none f = ok none
  on_match (some m) f = f m

  -- A unit that is known or not.
  abbrev on_unit :
      Option (UnitCode × F)
      → (UnitCode → F → Result (Option (ParseResult F)))
      → Result (Option (ParseResult F))
  on_unit none f = ok none
  on_unit (some (base, quantity)) f = f base quantity

  -- An amount in the first two groups.
  by_amount : Found u → Option (UnitCode × F)
  by_amount m = convert_to_base fl u (fl.of_text (text_of 1 m.groups)) (text_of 2 m.groups)

  by_parenthesis : Text → Result (Option (ParseResult F))
  by_parenthesis text =
      on_match (search_pattern u parenthesis_detail text)
        λ m. on_unit (by_amount m) λ base quantity. ok (some (rule base quantity 1 1 0 m.whole))

  -- An amount of each piece, and the number of pieces in the third group.
  per_piece : (ℕ → ℕ) → Found u → Result (Option (ParseResult F))
  per_piece packs m = and_then (to_int (text_of 3 m.groups)) λ count.
      on_unit (by_amount m) λ base each.
        and_then (to_float count)
          λ n. ok (some (rule base (fl.times each n) count (packs count) 0 m.whole))

  by_comma : Text → Result (Option (ParseResult F))
  by_comma text = on_match (search_pattern u comma_combo text) (per_piece (λ _. 1))

  -- `explicit_total or group(5)`, where a total of 0 counts as none; else the product.
  total_of : Option ℕ → Option Text → ℕ → Result ℕ
  total_of (some (suc n)) written product = ok (suc n)
  total_of _ (some written) product = to_int written
  total_of _ none product = ok product

  by_packs : Option ℕ → Text → Result (Option (ParseResult F))
  by_packs explicit_total text = on_match (search_pattern u n_by_m_with_total text) λ m.
      and_then (to_int (text_of 1 m.groups)) λ per_pack.
        and_then (to_int (text_of 3 m.groups)) λ packs.
          and_then (total_of explicit_total (group_of 5 m.groups) (per_pack * packs)) λ pieces.
            and_then (to_float pieces)
              λ quantity. ok (some (rule UnitCode.ct quantity pieces packs 0 m.whole))

  by_volume_times : Text → Result (Option (ParseResult F))
  by_volume_times text =
      on_match (search_pattern u volume_x_count text) (per_piece (λ count. count))

  by_volume_count : Text → Result (Option (ParseResult F))
  by_volume_count text = on_match (search_pattern u volume_space_count text) (per_piece (λ _. 1))

  by_bonus : Text → Result (Option (ParseResult F))
  by_bonus text = on_match (search_pattern u bonus_combo text) λ m.
      and_then (to_int (text_of 1 m.groups)) λ count.
        and_then (to_int (text_of 3 m.groups)) λ bonus.
          and_then (to_float count)
            λ quantity. ok (some (rule UnitCode.ct quantity count 1 bonus m.whole))

  by_count : Text → Result (Option (ParseResult F))
  by_count text = on_match (search_pattern u simple_count text) λ m.
      and_then (to_int (text_of 1 m.groups)) λ count. and_then (to_float count) λ n.
        on_unit (convert_to_base fl u n (text_of 2 m.groups))
          λ base quantity. ok (some (rule base quantity count 1 0 m.whole))

  abbrev total_in : Option (Found u) → Result (Option ℕ)
  total_in none = ok none
  total_in (some m) = and_then (to_int (text_of 1 m.groups)) (λ n. ok (some n))

  -- The number in "총 N개", where there is one.
  explicit_total : Text → Result (Option ℕ)
  explicit_total text = total_in (search_pattern u total_explicit text)

  -- The patterns in their order.
  by_patterns : Option ℕ → Text → Result (Option (ParseResult F))
  by_patterns total text = or_next (by_parenthesis text) (
      or_next (by_comma text) (
        or_next (by_packs total text) (
          or_next (by_volume_times text)
            (or_next (by_volume_count text) (or_next (by_bonus text) (by_count text))))))

  parse_visible : Text → Text → Result (Option (ParseResult F))
  parse_visible [] text = ok none
  parse_visible (c ∷ visible) text =
      let normalized = normalize text in
      and_then (explicit_total normalized) (λ total. by_patterns total normalized)

  -- `text` and `text.strip()` are not empty, or there is nothing to parse.
  pub parse_option_text : Text → Result (Option (ParseResult F))
  parse_option_text text = parse_visible (strip u text) text
