-- ===== src/Tests/Orders.antt =====
-- Each theorem on quotas, orders, results and jobs at the tables of the fixtures.
use price_checker.Base.{
  pos, true, false, ◌≡◌, ◌≢◌, ◌≤◌, ◌-◌, ◌*◌, refl, arith, [], ◌∷◌, ◌⊎◌, none, some, codes, All,
  filter, text_eq_refl, ◌++◌, sort_by,
}
use price_checker.Errors.{ok}
use price_checker.Models.Procurement.{
  ProcurementOrder, ProcurementResult, OrderStatus, ResultSource,
}
use price_checker.Models.Collection.{PriceCollectionJob, JobStatus}
use price_checker.Database.{Db, Session}
use price_checker.Quota.{check_and_consume}
use price_checker.Quota.Charges
use mathlib.Core.List.{Perm}
use price_checker.Procurement.Orders.{OrderCreate, create_order, list_orders}
use price_checker.Procurement.Orders.Pages.{IsPage, asked_for, list_orders-IsPage, list_orders-Perm}
use price_checker.Procurement.Orders.Charges.{Pays, Stores, create_order-Outcome}
use price_checker.Procurement.Results.{list_results_by_order, add_result}
use price_checker.Procurement.Results.Listing.{Lists, list_results-Lists}
use price_checker.Procurement.Savings.{is_result, saving_of, summary}
use price_checker.Procurement.Savings.Best.{saving_of-Best, total_savings-add}
use price_checker.Collection.Jobs.{create_job}
use price_checker.Collection.Jobs.Idempotency.{
  Ends, Again, create_job-Ends, create_job-Again, create_job_foreign,
}
use price_checker.Tests.Fixtures.{orm, session, tables}
use price_checker.Tests.Counters.{counters, clock, unused}

abbrev order : ProcurementOrder
order = record {
  id = 3;
  tenant_id = 1;
  shop_id = 1;
  product_name = codes "rice";
  option_text = none;
  quantity = 2;
  unit = codes "kg";
  target_unit_price = some 900;
  memo = none;
  status = OrderStatus.collecting;
  created_at = 5;
}

abbrev offer : ProcurementResult
offer = record {
  id = 1;
  order_id = 3;
  job_id = none;
  tenant_id = 1;
  source = ResultSource.manual;
  product_url = codes "http://a";
  seller_name = none;
  listed_price = pos 1600;
  per_unit_price = 800;
  shipping_fee = 0;
  unit_count = 2;
  source_method = none;
  external_offer_id = none;
  compare_eligible = true;
  parser_version = none;
  collected_at = 6;
}

-- A job of tenant 2.
abbrev job : PriceCollectionJob
job = record {
  id = 1;
  tenant_id = 2;
  order_id = 8;
  source = ResultSource.naver;
  status = JobStatus.pending;
  attempts = 0;
  next_retry_at = none;
  idempotency_key = codes "k";
  last_error_code = none;
  last_error_message = none;
}

abbrev stocked : Db
stocked = record tables { orders = order ∷ []; results = offer ∷ []; jobs = job ∷ [] }

abbrev open_session : Session
open_session = record session { db = stocked }

check_and_consume-Charges_example :
    let (r, st) = check_and_consume counters clock 1 5 1 unused in
    Charges.Charges counters clock 1 5 1 unused r st
check_and_consume-Charges_example =
    Charges.check_and_consume-Charges counters clock 1 5 1 unused (omega arith)

abbrev wish : OrderCreate
wish = record {
  shop_id = 1;
  product_name = codes "rice";
  option_text = none;
  quantity = 2;
  unit = codes "kg";
  target_unit_price = some 900;
  memo = none;
  status = OrderStatus.draft;
}

create_order-Outcome_example :
    let (r, st, s) = create_order orm counters clock 1 5 wish 9 unused open_session in
    Pays orm 1 wish 9 counters clock 5 unused r st × Stores 1 wish open_session r s
create_order-Outcome_example =
    create_order-Outcome orm 1 wish 9 counters clock 5 unused open_session

list_results-Lists_example :
    let (r, s) = list_results_by_order 1 3 open_session in Lists 1 3 open_session r s
list_results-Lists_example = list_results-Lists 1 3 open_session

saving_of-Best_example :
    All
      (λ (r : ProcurementResult). (900 - r.per_unit_price) * 2 ≤ saving_of 1 stocked order)
      (filter (is_result 1 3) stocked.results)
    × ((saving_of 1 stocked order ≡ 0)
        ⊎ ((r : ProcurementResult) × (is_result 1 3 r ≡ true)
            × (saving_of 1 stocked order ≡ (900 - r.per_unit_price) * 2)))
saving_of-Best_example = saving_of-Best 1 stocked order 900 refl

total_savings-add_example :
    (summary (λ d. d) 1 none (some 9) stocked).total_savings
    ≤ (summary (λ d. d) 1 none (some 9) (add_result offer stocked)).total_savings
total_savings-add_example = total_savings-add 1 (λ d. d) none (some 9) offer stocked

create_job-Ends_example :
    let (r, s) = create_job orm 1 3 (codes "new") open_session in
    Ends 1 3 (codes "new") open_session r s
create_job-Ends_example = create_job-Ends orm 1 3 (codes "new") open_session

create_job-Again_example :
    let (r, s) = create_job orm 1 3 (codes "new") open_session in Again orm 1 3 (codes "new") r s
create_job-Again_example = create_job-Again orm 1 3 (codes "new") open_session

create_job_foreign_example :
    (j : PriceCollectionJob) × (create_job orm 1 3 (codes "k") open_session
      ≡ (ok (j, false), open_session))
    × (j.tenant_id ≢ 1)
create_job_foreign_example =
    create_job_foreign orm 1 3 (codes "k") open_session {order = order} {j = job} refl refl
      (ground (arith, text_eq_refl (codes "k"))) (omega arith)

list_orders-IsPage_example :
    let (r, s) = list_orders 1 none (some 1) 20 0 open_session in IsPage 1 20 r × (s ≡ open_session)
list_orders-IsPage_example = list_orders-IsPage 1 none (some 1) 20 0 open_session

list_orders-Perm_example :
    Perm (order ∷ [] ++ []) (filter (asked_for 1 none none) open_session.db.orders)
unfolding list_orders sort_by
list_orders-Perm_example =
    list_orders-Perm 1 none none 1 1 open_session {os = order ∷ []} {ps = []} (omega arith) refl
      refl
