-- ===== src/Procurement/Results.antt =====
-- The results of backend/app/procurement/service.py. `now` is the clock; a time without a zone is
-- read as UTC before it comes here.
pub mod Listing
use price_checker.Base.{
  ℕ, pos, ◌/◌, ◌%◌, Bool, true, false, ◌&&◌, ◌||◌, Option, none, some, ◌∷◌, [], ◌++◌, List, map,
  Text, codes, filter, ◌==◌, ltb, leb, sort_by, str_int, if◌then◌else◌, Unicode,
}
use price_checker.Errors.{Error, Result, ok, err, procurement_order_not_found}
use price_checker.Models.Procurement.{
  ProcurementOrder, ProcurementResult, ResultSource, is_completed,
}
use price_checker.Database.{Db, Session, Orm, Action, pure, or_raise, query, ◌>>=◌, ◌>>◌, write}
use price_checker.Quota.{Redis, Clock}
use price_checker.Procurement.Orders.{charged, get_order}
use price_checker.Notifications.Deliveries.Events.{create_procurement_result_event}

pub record ResultUpload : Type 0 where
  pub source : ResultSource
  pub product_url : Text
  pub seller_name : Option Text
  pub listed_price : ℕ
  pub per_unit_price : ℕ
  pub shipping_fee : ℕ
  pub unit_count : ℕ
  pub collected_at : Option ℕ

-- `get_order`, and the exception where there is none.
pub get_order_or_raise : ℕ → ℕ → Action ProcurementOrder
get_order_or_raise tenant_id order_id = do
  order ← get_order tenant_id order_id
  or_raise order procurement_order_not_found

abbrev or_now : Option ℕ → ℕ → ℕ
or_now none now = now
or_now (some given) now = given

-- `str(price)` of a price with two decimals.
pub str_price : ℕ → Text
str_price price =
    str_int (price / 100) ++ (codes "." ++ (str_int (price % 100 / 10) ++ str_int (price % 10)))

abbrev pub add_result : ProcurementResult → Db → Db
add_result r d = record d { results = d.results ++ r ∷ [] }

module _ (orm : Orm) (u : Unicode) where
  new_result : ProcurementOrder → ResultUpload → ℕ → Db → ProcurementResult
  new_result order payload now d = record {
    id = orm.next_id (map (λ (r : ProcurementResult). r.id) d.results);
    order_id = order.id;
    job_id = none;
    tenant_id = order.tenant_id;
    source = payload.source;
    product_url = payload.product_url;
    seller_name = payload.seller_name;
    listed_price = pos payload.listed_price;
    per_unit_price = payload.per_unit_price;
    shipping_fee = payload.shipping_fee;
    unit_count = payload.unit_count;
    source_method = none;
    external_offer_id = none;
    compare_eligible = true;
    parser_version = none;
    collected_at = or_now payload.collected_at now;
  }

  -- The event for a result of an order that is completed.
  announce : Bool → ℕ → ProcurementOrder → ProcurementResult → Action (Unit {0})
  announce false tenant_id order result = pure tt
  announce true tenant_id order result = do
    create_procurement_result_event orm u tenant_id order.id result.id order.shop_id
        order.product_name (str_price result.per_unit_price) none
    pure tt

  -- `upload_result` behind the charge to the quota.
  insert_result : ℕ → ℕ → ResultUpload → ℕ → Action ProcurementResult
  insert_result tenant_id order_id payload now = do
    order ← get_order_or_raise tenant_id order_id
    result ← query (new_result order payload now)
    write (add_result result)
    announce (is_completed order.status) tenant_id order result
    pure result

pub upload_result :
    {Store : Type 0}
    → Orm
    → Unicode
    → Redis Store
    → Clock
    → ℕ
    → ℕ
    → ℕ
    → ResultUpload
    → ℕ
    → Store
    → Session
    → Result ProcurementResult × Store × Session
upload_result orm u redis clock tenant_id monthly_quota order_id payload now =
    charged redis clock tenant_id monthly_quota (insert_result orm u tenant_id order_id payload now)

-- `ORDER BY per_unit_price, id`
abbrev pub cheapest_first : ProcurementResult → ProcurementResult → Bool
cheapest_first r q =
    ltb r.per_unit_price q.per_unit_price || (r.per_unit_price == q.per_unit_price && leb r.id q.id)

abbrev pub is_listed : ℕ → ℕ → ProcurementResult → Bool
is_listed tenant_id order_id r = r.order_id == order_id && r.tenant_id == tenant_id

pub list_results_by_order : ℕ → ℕ → Action (List ProcurementResult)
list_results_by_order tenant_id order_id = do
  get_order_or_raise tenant_id order_id
  query λ d. sort_by cheapest_first (filter (is_listed tenant_id order_id) d.results)
