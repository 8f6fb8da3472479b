-- ===== src/Search/Run.antt =====
-- `run_search` of backend/app/services/search_service.py. Pydantic, which writes a response to JSON
-- and reads it back, is a parameter.
pub mod Cached
use price_checker.Base.{
  ℕ, zero, suc, ℤ, Bool, true, false, not, ◌||◌, ◌==◌, ◌≡◌, Option, none, some, List, [], ◌∷◌, ◌++◌,
  Text, codes, map, any, filter, length, ltb, leb, if◌then◌else◌, Unicode,
}
use price_checker.Errors.{Error, Result, ok, err, value_error}
use price_checker.Models.Procurement.{
  ProcurementOrder, ProcurementResult, ResultSource, result_source_code,
}
use price_checker.Database.{Db, Session, Action, query, pure, ◌>>=◌}
use price_checker.Quota.{Redis, Clock, check_and_consume}
use price_checker.Search.Cache.{
  KeyValues, Codec, Hashes, make_search_key, cache_get_json, cache_set_json, cache_delete,
}
use price_checker.Search.Query.{Row, load_matches}

pub record SearchResultItem : Type 0 where
  pub result_id : ℕ
  pub order_id : ℕ
  pub source : ResultSource
  pub product_url : Text
  pub seller_name : Option Text
  pub listed_price : ℤ
  pub per_unit_price : ℕ
  pub shipping_fee : ℕ
  pub unit_count : ℕ
  pub product_name : Text
  pub option_text : Option Text

-- `sources` has the status "ok" for each source that it has.
pub record SearchResponse : Type 0 where
  pub query : Text
  pub limit : ℕ
  pub tenant_id : ℕ
  pub results : List SearchResultItem
  pub sources : List ResultSource
  pub cached : Bool
  pub hint : Option Text

-- What becomes of a cached value: no dictionary, one that is no response, or the response with
-- `cached` and `tenant_id` set anew.
pub data Validated : Type 0 where
  no_dict malformed : Validated
  valid : SearchResponse → Validated

abbrev pub as_cached : ℕ → SearchResponse → SearchResponse
as_cached tenant_id r = record r { cached = true; tenant_id = tenant_id }

pub record Pydantic (Json : Type 0) : Type 0 where
  pub model_dump : SearchResponse → Json
  pub model_validate : ℕ → Json → Validated
  pub model_validate-model_dump :
      (t : ℕ) (r : SearchResponse) → model_validate t (model_dump r) ≡ valid (as_cached t r)
  pub model_validate-cached :
      (t : ℕ) (v : Json) (r : SearchResponse) → model_validate t v ≡ valid r → as_cached t r ≡ r

abbrev pub to_item : Row → SearchResultItem
to_item (result, order) = record {
  result_id = result.id;
  order_id = order.id;
  source = result.source;
  product_url = result.product_url;
  seller_name = result.seller_name;
  listed_price = result.listed_price;
  per_unit_price = result.per_unit_price;
  shipping_fee = result.shipping_fee;
  unit_count = result.unit_count;
  product_name = order.product_name;
  option_text = order.option_text;
}

-- The sources of the items, each once.
pub build_sources : List SearchResultItem → List ResultSource
build_sources [] = []
build_sources (item ∷ items) =
    let more = build_sources items in
    item.source ∷ filter (λ s. not (result_source_code s == result_source_code item.source)) more

abbrev pub count_in_tenant : ℕ → Db → ℕ
count_in_tenant tenant_id d =
    length (filter (λ (r : ProcurementResult). r.tenant_id == tenant_id) d.results)

abbrev hint_of : ℕ → Text
hint_of zero = codes "no_uploaded_results"
hint_of (suc _) = codes "no_matching_results"

unfoldable pub respond : ℕ → Text → ℕ → List SearchResultItem → ℕ → SearchResponse
respond tenant_id text limit [] total = record {
  query = text;
  limit = limit;
  tenant_id = tenant_id;
  results = [];
  sources = [];
  cached = false;
  hint = some (hint_of total);
}
respond tenant_id text limit (item ∷ items) total = record {
  query = text;
  limit = limit;
  tenant_id = tenant_id;
  results = item ∷ items;
  sources = build_sources (item ∷ items);
  cached = false;
  hint = none;
}

module _ {Store Payload Json : Type 0} (same : ℕ → ℕ → Bool) (u : Unicode) (hashes : Hashes)
    (redis : KeyValues Store Payload) (json : Codec Json Payload) (pydantic : Pydantic Json)
    (search_cache_ttl_seconds : ℕ) where
  -- A result, and what is left of the cache and of the session.
  abbrev pub Searched : Type 0
  Searched = Result SearchResponse × Store × Session

  -- The response that is stored, with an exception of the cache passed on.
  abbrev stored : SearchResponse → Result (Unit {0}) × Store → Session → Searched
  stored response (ok _, st) s = (ok response, st, s)
  stored response (err e, st) s = (err e, st, s)

  abbrev answered : ℕ → Text → Result SearchResponse × Session → Store → Searched
  answered tenant_id key (err e, s) st = (err e, st, s)
  answered tenant_id key (ok response, s) st =
      stored response
        (cache_set_json redis json tenant_id key (pydantic.model_dump response)
          search_cache_ttl_seconds st)
        s

  unfoldable pub search_tables : ℕ → Text → ℕ → Action SearchResponse
  search_tables tenant_id text limit = do
    rows ← load_matches same u tenant_id text limit
    total ← query (count_in_tenant tenant_id)
    pure (respond tenant_id text limit (map to_item rows) total)

  -- The answer from the tables.
  unfoldable pub search_anew : ℕ → Text → Text → ℕ → Store → Session → Searched
  search_anew tenant_id key text limit st s =
      answered tenant_id key (search_tables tenant_id text limit s) st

  -- The answer behind a lookup in the cache.
  abbrev validated : ℕ → Text → Text → ℕ → Validated → Store → Session → Searched
  validated tenant_id key text limit no_dict st s = search_anew tenant_id key text limit st s
  validated tenant_id key text limit malformed st s =
      search_anew tenant_id key text limit (cache_delete redis json tenant_id key st).1 s
  validated tenant_id key text limit (valid response) st s = (ok response, st, s)

  abbrev looked_up : ℕ → Text → Text → ℕ → Result (Option Json) × Store → Session → Searched
  looked_up tenant_id key text limit (err e, st) s = (err e, st, s)
  looked_up tenant_id key text limit (ok none, st) s = search_anew tenant_id key text limit st s
  looked_up tenant_id key text limit (ok (some value), st) s =
      validated tenant_id key text limit (pydantic.model_validate tenant_id value) st s

  -- `run_search` behind the charge and with the key of the cache.
  unfoldable pub search_by_key : ℕ → Text → ℕ → Bool → Result Text → Store → Session → Searched
  search_by_key tenant_id text limit force_refresh (err e) st s = (err e, st, s)
  search_by_key tenant_id text limit true (ok key) st s =
      search_anew tenant_id key text limit (cache_delete redis json tenant_id key st).1 s
  search_by_key tenant_id text limit false (ok key) st s =
      looked_up tenant_id key text limit (cache_get_json redis json tenant_id key st) s

  -- The counter of the quota is kept apart from the cache.
  unfoldable pub run_search :
      {Counters : Type 0}
      → Redis Counters
      → Clock
      → ℕ
      → ℕ
      → Text
      → ℕ
      → Bool
      → Counters
      → Store
      → Session
      → Counters × Searched
  run_search counters clock tenant_id monthly_quota text limit force_refresh counts st s =
      if ltb limit 1 || ltb 100 limit
      then (counts, (err value_error, st, s))
      else (let (charge, counts') =
            check_and_consume counters clock tenant_id monthly_quota 1 counts in
          (
            counts',
            elim charge [
              | err e ↦ (err e, st, s)
              | ok _ ↦
                  search_by_key tenant_id text limit force_refresh
                    (make_search_key hashes u tenant_id text limit) st s
            ],
          ))
