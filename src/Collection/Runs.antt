-- ===== src/Collection/Runs.antt =====
-- `run_job` of backend/app/price_collection/service.py. The search client is a parameter, as its
-- protocol in the source is. The clock is read at each use: `retry_from` for the next try,
-- `attempted_at` for the attempt, `collected_at` for the results.
pub mod Rows
pub mod Replacement
pub mod Canonical
pub mod Savings
use price_checker.Base.{
  ℕ, ◌+◌, Bool, true, false, ◌&&◌, not, Option, none, some, ◌∷◌, [], List, map, Text, codes,
  text_eq, filter, ◌==◌, sort_by, update_where, if◌then◌else◌, Unicode,
}
use price_checker.Errors.{Error, Result, ok, and_then, collection_order_not_found}
use price_checker.Floats.{Floats}
use price_checker.Models.Procurement.{
  ProcurementOrder, ProcurementResult, ResultSource, result_source_code, is_completed,
}
use price_checker.Models.Collection.{PriceCollectionJob, JobStatus, AttemptStatus}
use price_checker.Database.{Db, Orm, Action, pure, raise, or_raise, query, lift, ◌>>=◌, ◌>>◌, write}
use price_checker.Procurement.Results.{cheapest_first, str_price, add_result}
use price_checker.Notifications.Deliveries.Events.{create_procurement_result_event}
use price_checker.Collection.Jobs.{
  get_job, get_order_or_raise, record_attempt, has_eligible_results, is_eligible, build_query,
}
use price_checker.Collection.Normalization.{
  NaverShoppingItem, CanonicalCollectedResult, normalize_naver_item,
}

-- What `client.search` does: it returns items; or it raises `NaverClientTimeoutError` or
-- `NaverClientRateLimitError`, whose text is given; or another exception.
pub data Searched : Type 0 where
  found : List NaverShoppingItem → Searched
  retryable : Text → Searched
  refused : Error → Searched

abbrev pub set_job : PriceCollectionJob → Db → Db
set_job job d = record d {
  jobs = update_where (λ (j : PriceCollectionJob). j.id == job.id) (λ _. job) d.jobs;
}

-- The rows that `_replace_canonical_results` deletes.
abbrev pub is_canonical : ℕ → ℕ → ResultSource → ProcurementResult → Bool
is_canonical tenant_id order_id source r =
    r.tenant_id == tenant_id
    && (r.order_id == order_id
        && (result_source_code r.source == result_source_code source && is_method r.source_method))
  where
    is_method : Option Text → Bool
    is_method none = false
    is_method (some method) = text_eq method (codes "naver_openapi")

abbrev pub drop_canonical : ℕ → ℕ → ResultSource → Db → Db
drop_canonical tenant_id order_id source d = record d {
  results = filter (λ r. not (is_canonical tenant_id order_id source r)) d.results;
}

-- `price or Decimal("0.00")`
abbrev pub or_zero : Option ℕ → ℕ
or_zero none = 0
or_zero (some price) = price

abbrev pub running : PriceCollectionJob → PriceCollectionJob
running job = record job {
  status = JobStatus.running;
  last_error_code = none;
  last_error_message = none;
  next_retry_at = none;
}

abbrev pub to_retry : PriceCollectionJob → Text → ℕ → PriceCollectionJob
to_retry job message next_retry_at = record job {
  attempts = job.attempts + 1;
  status = JobStatus.pending;
  last_error_code = some message;
  last_error_message = some message;
  next_retry_at = some next_retry_at;
}

abbrev pub finished : PriceCollectionJob → Bool → PriceCollectionJob
finished job eligible = record job {
  status = if eligible then JobStatus.succeeded else JobStatus.partial_failed;
  attempts = job.attempts + 1;
}

module _ (orm : Orm) where
  pub new_result :
      ℕ
      → ProcurementOrder
      → PriceCollectionJob
      → ℕ
      → CanonicalCollectedResult
      → Db
      → ProcurementResult
  new_result tenant_id order job collected_at normalized d = record {
    id = orm.next_id (map (λ (r : ProcurementResult). r.id) d.results);
    order_id = order.id;
    job_id = some job.id;
    tenant_id = tenant_id;
    source = normalized.source;
    product_url = normalized.product_url;
    seller_name = normalized.seller_name;
    listed_price = normalized.listed_price;
    per_unit_price = or_zero normalized.per_unit_price;
    shipping_fee = normalized.shipping_fee;
    unit_count = normalized.unit_count;
    source_method = some normalized.source_method;
    external_offer_id = normalized.external_offer_id;
    compare_eligible = normalized.compare_eligible;
    parser_version = some normalized.parser_version;
    collected_at = collected_at;
  }

  -- The rows of one flush, each with an id of its own.
  pub add_results :
      ℕ → ProcurementOrder → PriceCollectionJob → ℕ → List CanonicalCollectedResult → Db → Db
  add_results tenant_id order job collected_at [] d = d
  add_results tenant_id order job collected_at (n ∷ ns) d =
      add_results tenant_id order job collected_at ns
        (add_result (new_result tenant_id order job collected_at n d) d)

  -- `_replace_canonical_results`
  pub replace_canonical_results :
      ℕ
      → ProcurementOrder
      → PriceCollectionJob
      → ℕ
      → List CanonicalCollectedResult
      → Action (Unit {0})
  replace_canonical_results tenant_id order job collected_at normalized_results = do
    write (drop_canonical tenant_id order.id job.source)
    write (add_results tenant_id order job collected_at normalized_results)

  -- The cheapest comparable result of the job.
  best_result : ℕ → Action (List ProcurementResult)
  best_result job_id = query (λ d. sort_by cheapest_first (filter (is_eligible job_id) d.results))

module _ (orm : Orm) (u : Unicode) where
  announce_best : ℕ → ProcurementOrder → List ProcurementResult → Action (Unit {0})
  announce_best tenant_id order [] = pure tt
  announce_best tenant_id order (result ∷ _) = do
    create_procurement_result_event orm u tenant_id order.id result.id order.shop_id
        order.product_name (str_price result.per_unit_price) none
    pure tt

  -- `_emit_best_result_notification_if_needed`, for an order that is completed or not.
  pub emit_best_result : Bool → ℕ → ProcurementOrder → ℕ → Action (Unit {0})
  emit_best_result false tenant_id order job_id = pure tt
  emit_best_result true tenant_id order job_id = do
    best ← best_result orm job_id
    announce_best tenant_id order best

module _ {F : Type 0} (fl : Floats F) (orm : Orm) (u : Unicode) where
  -- The list comprehension of `run_job`.
  unfoldable pub normalize_all :
      ProcurementOrder → ℕ → List NaverShoppingItem → Result (List CanonicalCollectedResult)
  normalize_all order parser_version [] = ok []
  normalize_all order parser_version (item ∷ items) =
      and_then (normalize_naver_item fl u order item parser_version)
        λ n. and_then (normalize_all order parser_version items) λ ns. ok (n ∷ ns)

  module _ (retry_from attempted_at collected_at retry_base_seconds : ℕ) where
    pub postpone : ℕ → PriceCollectionJob → Text → Action PriceCollectionJob
    postpone tenant_id job message = do
      let failed = to_retry job message (retry_from + retry_base_seconds)
      write (set_job failed)
      record_attempt orm failed.id tenant_id failed.source AttemptStatus.retryable_failure
          (some message) (some message) attempted_at
      pure failed

    pub store :
        ℕ
        → ProcurementOrder
        → PriceCollectionJob
        → List CanonicalCollectedResult
        → Action PriceCollectionJob
    store tenant_id order job normalized = do
      replace_canonical_results orm tenant_id order job collected_at normalized
      eligible ← has_eligible_results job.id
      let done = finished job eligible
      write (set_job done)
      record_attempt orm done.id tenant_id done.source AttemptStatus.success none none attempted_at
      emit_best_result orm u (is_completed order.status) tenant_id order done.id
      pure done

    pub after_search :
        ℕ → ℕ → ProcurementOrder → PriceCollectionJob → Searched → Action PriceCollectionJob
    after_search tenant_id parser_version order job (retryable message) =
        postpone tenant_id job message
    after_search tenant_id parser_version order job (refused e) = raise e
    after_search tenant_id parser_version order job (found items) = do
      normalized ← lift (normalize_all order parser_version items)
      store tenant_id order job normalized

    pub run_job : ℕ → ℕ → (Text → Searched) → ℕ → Action PriceCollectionJob
    run_job job_id tenant_id search parser_version = do
      stored ← get_job tenant_id job_id
      job ← or_raise stored collection_order_not_found
      order ← get_order_or_raise tenant_id job.order_id
      write (set_job (running job))
      after_search tenant_id parser_version order (running job) (search (build_query u order))
