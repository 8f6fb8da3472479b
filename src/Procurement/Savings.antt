-- ===== src/Procurement/Savings.antt =====
-- The report on savings of backend/app/procurement/service.py. The first midnight of a day in Korea
-- comes from the library's time zones, a parameter; days are counted.
pub mod Best
use price_checker.Base.{
  ℕ, ◌+◌, ◌-◌, ◌*◌, Bool, true, false, ◌&&◌, Option, none, some, ◌∷◌, [], List, min, filter, length,
  ◌==◌, ltb, leb, if◌then◌else◌,
}
use price_checker.Errors.{Result, ok, err}
use price_checker.Models.Procurement.{ProcurementOrder, ProcurementResult, is_completed}
use price_checker.Database.{Db, Session, Action, pure, query, ◌>>=◌, ◌>>◌}

pub record SummaryReport : Type 0 where
  pub date_from : Option ℕ
  pub date_to : Option ℕ
  pub orders_count : ℕ
  pub completed_orders_count : ℕ
  pub results_count : ℕ
  pub total_savings : ℕ

-- From the first midnight of the first day to the first midnight behind the last day.
pub kst_range_to_utc : (ℕ → ℕ) → Option ℕ → Option ℕ → Option ℕ × Option ℕ
kst_range_to_utc midnight date_from date_to = (
  elim date_from [ none ↦ none | some day ↦ some (midnight day) ],
  elim date_to [ none ↦ none | some day ↦ some (midnight (day + 1)) ],
)

abbrev not_before : Option ℕ → ℕ → Bool
not_before none at = true
not_before (some from) at = leb from at

abbrev before : Option ℕ → ℕ → Bool
before none at = true
before (some to) at = ltb at to

pub orders_between : ℕ → Option ℕ × Option ℕ → Db → List ProcurementOrder
orders_between tenant_id (from_utc, to_utc) d =
    filter
      (λ (o : ProcurementOrder).
        o.tenant_id == tenant_id && not_before from_utc o.created_at && before to_utc o.created_at)
      d.orders

abbrev pub is_result : ℕ → ℕ → ProcurementResult → Bool
is_result tenant_id order_id r = r.tenant_id == tenant_id && r.order_id == order_id

-- `SELECT min(per_unit_price)`, which is NULL of no rows.
pub min_price : List ProcurementResult → Option ℕ
min_price [] = none
min_price (r ∷ rs) = elim (min_price rs) [
  | none ↦ some r.per_unit_price
  | some p ↦ some (min r.per_unit_price p)
]

-- What an order adds to the total: a difference of 0 or less adds nothing, and neither does a
-- target or a best price that is missing.
pub saving : Option ℕ → Option ℕ → ℕ → ℕ
saving none best quantity = 0
saving (some target) none quantity = 0
saving (some target) (some best) quantity =
    if leb target best then 0 else (target - best) * quantity

abbrev pub saving_of : ℕ → Db → ProcurementOrder → ℕ
saving_of tenant_id d o =
    saving o.target_unit_price (min_price (filter (is_result tenant_id o.id) d.results)) o.quantity

-- The loop over the orders, with the number of results and the total so far.
pub tally : ℕ → Db → List ProcurementOrder → ℕ → ℕ → ℕ × ℕ
tally tenant_id d [] results_count total = (results_count, total)
tally tenant_id d (o ∷ orders) results_count total =
    tally tenant_id d orders (results_count + length (filter (is_result tenant_id o.id) d.results))
      (total + saving_of tenant_id d o)

pub summary : (ℕ → ℕ) → ℕ → Option ℕ → Option ℕ → Db → SummaryReport
summary midnight tenant_id date_from date_to d =
    let orders = orders_between tenant_id (kst_range_to_utc midnight date_from date_to) d in
    let (results_count, total_savings) = tally tenant_id d orders 0 0 in
    record {
      date_from = date_from;
      date_to = date_to;
      orders_count = length orders;
      completed_orders_count =
          length (filter (λ (o : ProcurementOrder). is_completed o.status) orders);
      results_count = results_count;
      total_savings = total_savings;
    }

pub aggregate_savings : (ℕ → ℕ) → ℕ → Option ℕ → Option ℕ → Action SummaryReport
aggregate_savings midnight tenant_id date_from date_to =
    query (summary midnight tenant_id date_from date_to)
