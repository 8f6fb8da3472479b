-- ===== src/Search/Query.antt =====
-- The query of backend/app/services/search_service.py.
pub mod Needle
pub mod Matches
use price_checker.Base.{
  ℕ, Bool, true, false, ◌&&◌, ◌||◌, ◌==◌, ltb, leb, Option, none, some, List, [], ◌∷◌, ◌++◌, Text,
  concat_map, map, filter, take, sort_by, Unicode, strip, if◌then◌else◌,
}
use price_checker.Models.Procurement.{ProcurementOrder, ProcurementResult}
use price_checker.Database.{Db, Action, query}
use price_checker.Search.Like.{ilike}

-- `s.replace(c, "\" + c)`
abbrev pub escape : ℕ → Text → Text
escape c s = concat_map (λ x. if x == c then b'\\' ∷ x ∷ [] else x ∷ []) s

unfoldable pub escape_like : Text → Text
escape_like token = escape b'_' (escape b'%' (escape b'\\' token))

abbrev pub needle : Unicode → Text → Text
needle u query = b'%' ∷ (escape_like (strip u query) ++ b'%' ∷ [])

abbrev pub Row : Type 0
Row = ProcurementResult × ProcurementOrder

-- `JOIN ... ON`
abbrev pub joined : Db → List Row
joined d =
    concat_map
      (λ (r : ProcurementResult).
        map (λ (o : ProcurementOrder). (r, o))
          (filter (λ (o : ProcurementOrder). o.id == r.order_id) d.orders))
      d.results

-- A comparison with NULL is no match.
abbrev pub option_ilike : (ℕ → ℕ → Bool) → Text → Option Text → Bool
option_ilike same pattern none = false
option_ilike same pattern (some text) = ilike same pattern text

abbrev pub is_match : (ℕ → ℕ → Bool) → ℕ → Text → Row → Bool
is_match same tenant_id pattern (r, o) =
    r.tenant_id == tenant_id
    && (o.tenant_id == tenant_id
        && (r.compare_eligible
            && (ilike same pattern o.product_name || option_ilike same pattern o.option_text)))

-- `ORDER BY per_unit_price, collected_at DESC, id`
abbrev pub best_first : Row → Row → Bool
best_first (r, _) (q, _) =
    ltb r.per_unit_price q.per_unit_price
    || (r.per_unit_price == q.per_unit_price
        && (ltb q.collected_at r.collected_at
            || (r.collected_at == q.collected_at && leb r.id q.id)))

unfoldable pub load_matches : (ℕ → ℕ → Bool) → Unicode → ℕ → Text → ℕ → Action (List Row)
load_matches same u tenant_id text limit = query λ d.
    take limit (sort_by best_first (filter (is_match same tenant_id (needle u text)) (joined d)))
